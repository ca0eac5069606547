-- ===== src/Docs/Templates.antt =====
-- The two templates of docs/docs.go, cut at their verbs `%s`.
use api_toolkit.Prelude.{List, [], ◌∷◌, ◌++◌, Text, codes}

-- Lines, with a newline between them.
unfoldable pub unlines : List Text → Text
unlines [] = []
unlines (l ∷ []) = l
unlines (l ∷ m ∷ ls) = l ++ b'\n' ∷ unlines (m ∷ ls)

abbrev pub html_1 : Text
html_1 = unlines (
    codes "<!DOCTYPE html>"
    ∷ codes "<html lang=\"en\">"
    ∷ codes "<head>"
    ∷ codes "    <meta charset=\"UTF-8\">"
    ∷ codes "    <meta name=\"viewport\" content=\"width=device-width, initial-scale=1.0\">"
    ∷ codes "    <title>"
    ∷ [])

abbrev pub html_2 : Text
html_2 = unlines (
    codes "</title>"
    ∷ codes "    <style>"
    ∷ codes "        body { font-family: Arial, sans-serif; margin: 40px; }"
    ∷ codes "        .header { border-bottom: 2px solid #333; padding-bottom: 20px; }"
    ∷ codes "        .content { margin-top: 20px; }"
    ∷ codes
        "        .endpoint { background: #f5f5f5; padding: 10px; margin: 10px 0; border-radius: 5px; }"
    ∷ codes "        .method { font-weight: bold; color: #0066cc; }"
    ∷ codes "        .path { font-family: monospace; }"
    ∷ codes "    </style>"
    ∷ codes "</head>"
    ∷ codes "<body>"
    ∷ codes "    <div class=\"header\">"
    ∷ codes "        <h1>"
    ∷ [])

abbrev pub html_3 : Text
html_3 = unlines (codes "</h1>" ∷ codes "        <p>" ∷ [])

abbrev pub html_4 : Text
html_4 = unlines (codes "</p>" ∷ codes "        <p><strong>Version:</strong> " ∷ [])

abbrev pub html_5 : Text
html_5 = unlines (
    codes "</p>"
    ∷ codes "    </div>"
    ∷ codes "    "
    ∷ codes "    <div class=\"content\">"
    ∷ codes "        <h2>Available Endpoints</h2>"
    ∷ codes "        "
    ∷ codes "        <div class=\"endpoint\">"
    ∷ codes "            <span class=\"method\">GET</span> <span class=\"path\">/docs</span>"
    ∷ codes "            <p>This documentation page</p>"
    ∷ codes "        </div>"
    ∷ codes "        "
    ∷ codes "        <div class=\"endpoint\">"
    ∷ codes
        "            <span class=\"method\">GET</span> <span class=\"path\">/docs/openapi.json</span>"
    ∷ codes "            <p>OpenAPI specification in JSON format</p>"
    ∷ codes "        </div>"
    ∷ codes "        "
    ∷ codes "        <div class=\"endpoint\">"
    ∷ codes
        "            <span class=\"method\">GET</span> <span class=\"path\">/docs/version</span>"
    ∷ codes "            <p>API version information</p>"
    ∷ codes "        </div>"
    ∷ codes "        "
    ∷ codes "        <div class=\"endpoint\">"
    ∷ codes "            <span class=\"method\">GET</span> <span class=\"path\">/docs/info</span>"
    ∷ codes "            <p>API information and metadata</p>"
    ∷ codes "        </div>"
    ∷ codes "        "
    ∷ codes "        <div class=\"endpoint\">"
    ∷ codes "            <span class=\"method\">GET</span> <span class=\"path\">/livez</span>"
    ∷ codes "            <p>Liveness probe endpoint</p>"
    ∷ codes "        </div>"
    ∷ codes "        "
    ∷ codes "        <div class=\"endpoint\">"
    ∷ codes "            <span class=\"method\">GET</span> <span class=\"path\">/readyz</span>"
    ∷ codes "            <p>Readiness probe endpoint</p>"
    ∷ codes "        </div>"
    ∷ codes "        "
    ∷ codes "        <div class=\"endpoint\">"
    ∷ codes "            <span class=\"method\">GET</span> <span class=\"path\">/healthz</span>"
    ∷ codes "            <p>Health check endpoint</p>"
    ∷ codes "        </div>"
    ∷ codes "        "
    ∷ codes "        <div class=\"endpoint\">"
    ∷ codes
        "            <span class=\"method\">GET</span> <span class=\"path\">/health/detailed</span>"
    ∷ codes "            <p>Detailed health information</p>"
    ∷ codes "        </div>"
    ∷ codes "        "
    ∷ codes "        <div class=\"endpoint\">"
    ∷ codes "            <span class=\"method\">GET</span> <span class=\"path\">/version</span>"
    ∷ codes "            <p>Application version information</p>"
    ∷ codes "        </div>"
    ∷ codes "        "
    ∷ codes "        <h2>API Resources</h2>"
    ∷ codes "        <div class=\"endpoint\">"
    ∷ codes "            <span class=\"method\">GET</span> <span class=\"path\">/api/v1/foo</span>"
    ∷ codes "            <p>List foo resources</p>"
    ∷ codes "        </div>"
    ∷ codes "        "
    ∷ codes "        <div class=\"endpoint\">"
    ∷ codes "            <span class=\"method\">POST</span> <span class=\"path\">/api/v1/foo</span>"
    ∷ codes "            <p>Create a new foo resource</p>"
    ∷ codes "        </div>"
    ∷ codes "        "
    ∷ codes "        <div class=\"endpoint\">"
    ∷ codes
        "            <span class=\"method\">GET</span> <span class=\"path\">/api/v1/foo/{id}</span>"
    ∷ codes "            <p>Get a specific foo resource</p>"
    ∷ codes "        </div>"
    ∷ codes "        "
    ∷ codes "        <div class=\"endpoint\">"
    ∷ codes
        "            <span class=\"method\">PUT</span> <span class=\"path\">/api/v1/foo/{id}</span>"
    ∷ codes "            <p>Update a foo resource</p>"
    ∷ codes "        </div>"
    ∷ codes "        "
    ∷ codes "        <div class=\"endpoint\">"
    ∷ codes
        "            <span class=\"method\">DELETE</span> <span class=\"path\">/api/v1/foo/{id}</span>"
    ∷ codes "            <p>Delete a foo resource</p>"
    ∷ codes "        </div>"
    ∷ codes "    </div>"
    ∷ codes "</body>"
    ∷ codes "</html>"
    ∷ [])

abbrev pub openapi_1 : Text
openapi_1 = unlines (
    codes "{"
    ∷ codes "  \"openapi\": \"3.0.0\","
    ∷ codes "  \"info\": {"
    ∷ codes "    \"title\": \""
    ∷ [])

abbrev pub openapi_2 : Text
openapi_2 = unlines (codes "\"," ∷ codes "    \"description\": \"" ∷ [])

abbrev pub openapi_3 : Text
openapi_3 = unlines (codes "\"," ∷ codes "    \"version\": \"" ∷ [])

abbrev pub openapi_4 : Text
openapi_4 = unlines (
    codes "\""
    ∷ codes "  },"
    ∷ codes "  \"servers\": ["
    ∷ codes "    {"
    ∷ codes "      \"url\": \"http://localhost:8000\","
    ∷ codes "      \"description\": \"Development server\""
    ∷ codes "    }"
    ∷ codes "  ],"
    ∷ codes "  \"paths\": {"
    ∷ codes "    \"/docs\": {"
    ∷ codes "      \"get\": {"
    ∷ codes "        \"summary\": \"API Documentation\","
    ∷ codes "        \"description\": \"Returns the API documentation page\","
    ∷ codes "        \"responses\": {"
    ∷ codes "          \"200\": {"
    ∷ codes "            \"description\": \"HTML documentation page\","
    ∷ codes "            \"content\": {"
    ∷ codes "              \"text/html\": {"
    ∷ codes "                \"schema\": {"
    ∷ codes "                  \"type\": \"string\""
    ∷ codes "                }"
    ∷ codes "              }"
    ∷ codes "            }"
    ∷ codes "          }"
    ∷ codes "        }"
    ∷ codes "      }"
    ∷ codes "    },"
    ∷ codes "    \"/livez\": {"
    ∷ codes "      \"get\": {"
    ∷ codes "        \"summary\": \"Liveness Probe\","
    ∷ codes "        \"description\": \"Returns the liveness status of the application\","
    ∷ codes "        \"responses\": {"
    ∷ codes "          \"200\": {"
    ∷ codes "            \"description\": \"Application is alive\","
    ∷ codes "            \"content\": {"
    ∷ codes "              \"application/json\": {"
    ∷ codes "                \"schema\": {"
    ∷ codes "                  \"type\": \"object\","
    ∷ codes "                  \"properties\": {"
    ∷ codes "                    \"status\": {"
    ∷ codes "                      \"type\": \"string\","
    ∷ codes
        "                      \"enum\": [\"healthy\", \"unhealthy\", \"degraded\", \"unknown\"]"
    ∷ codes "                    },"
    ∷ codes "                    \"timestamp\": {"
    ∷ codes "                      \"type\": \"string\","
    ∷ codes "                      \"format\": \"date-time\""
    ∷ codes "                    },"
    ∷ codes "                    \"message\": {"
    ∷ codes "                      \"type\": \"string\""
    ∷ codes "                    }"
    ∷ codes "                  }"
    ∷ codes "                }"
    ∷ codes "              }"
    ∷ codes "            }"
    ∷ codes "          }"
    ∷ codes "        }"
    ∷ codes "      }"
    ∷ codes "    },"
    ∷ codes "    \"/readyz\": {"
    ∷ codes "      \"get\": {"
    ∷ codes "        \"summary\": \"Readiness Probe\","
    ∷ codes "        \"description\": \"Returns the readiness status of the application\","
    ∷ codes "        \"responses\": {"
    ∷ codes "          \"200\": {"
    ∷ codes "            \"description\": \"Application is ready\","
    ∷ codes "            \"content\": {"
    ∷ codes "              \"application/json\": {"
    ∷ codes "                \"schema\": {"
    ∷ codes "                  \"type\": \"object\","
    ∷ codes "                  \"properties\": {"
    ∷ codes "                    \"status\": {"
    ∷ codes "                      \"type\": \"string\","
    ∷ codes
        "                      \"enum\": [\"healthy\", \"unhealthy\", \"degraded\", \"unknown\"]"
    ∷ codes "                    },"
    ∷ codes "                    \"timestamp\": {"
    ∷ codes "                      \"type\": \"string\","
    ∷ codes "                      \"format\": \"date-time\""
    ∷ codes "                    },"
    ∷ codes "                    \"message\": {"
    ∷ codes "                      \"type\": \"string\""
    ∷ codes "                    }"
    ∷ codes "                  }"
    ∷ codes "                }"
    ∷ codes "              }"
    ∷ codes "            }"
    ∷ codes "          }"
    ∷ codes "        }"
    ∷ codes "      }"
    ∷ codes "    }"
    ∷ codes "  }"
    ∷ codes "}"
    ∷ [])
