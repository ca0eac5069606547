-- ===== src/RateLimit/Keys.antt =====
-- The keys of middleware/ratelimit/ratelimit.go do not meet.
use api_toolkit.Prelude.{
  ℕ, ◌≡◌, refl, sym, ap, ◌∙◌, Bool, true, false, List, [], ◌∷◌, Option, some, Text, if◌then◌else◌,
  ◌==◌, list_eq, text_eq_iff, lookup, insert, lookup-insert,
}
use api_toolkit.Prelude.Float.{less, subtract, whole}
use api_toolkit.RateLimit.{
  Bucket, Middleware, Verdict, served, too_many_requests, found_or, refill, bucket_at,
  retry_after_text, handle_key, run, verdicts,
}

-- The requests of a key among those of all keys, in their order.
unfoldable pub only : Text → List (Text × ℕ) → List (Text × ℕ)
only key [] = []
only key ((j, now) ∷ rest) =
    let later = only key rest in if j == key then (j, now) ∷ later else later

module _ (m : Middleware) where
  abbrev with_buckets : List (Text × Bucket) → Middleware
  with_buckets bs = record m { buckets = bs }

  -- The bucket after a request, and the verdict, from the bucket that there is for its key.
  abbrev decided : Option Bucket → ℕ → Bucket × Verdict
  decided o now =
      let b = refill m (found_or (record { tokens = m.capacity; last_seen = now }) o) now in
      if less b.tokens (whole 1)
      then (b, too_many_requests (retry_after_text m.retry_after))
      else (record b { tokens = subtract b.tokens (whole 1) }, served)

  handle_key-decided :
      (bs : List (Text × Bucket)) (j : Text) (now : ℕ)
      → handle_key (with_buckets bs) j now
        ≡ (with_buckets (insert j (decided (lookup j bs) now).0 bs), (decided (lookup j bs) now).1)
  unfolding handle_key bucket_at refill
  handle_key-decided bs j now = by_bool (less b.tokens (whole 1)) (retry_after_text m.retry_after)
    where
      b : Bucket
      b = refill m (found_or (record { tokens = m.capacity; last_seen = now }) (lookup j bs)) now

      full : Bucket
      full = record b { tokens = subtract b.tokens (whole 1) }

      answer : Bool → Option Text → Bucket × Verdict
      answer low text = if low then (b, too_many_requests text) else (full, served)

      by_bool :
          (low : Bool) (text : Option Text)
          → ◌≡◌ {A = Middleware × Verdict}
              (if low
                then (with_buckets (insert j b bs), too_many_requests text)
                else (with_buckets (insert j full bs), served))
              (with_buckets (insert j (answer low text).0 bs), (answer low text).1)
      by_bool true text = refl
      by_bool false text = refl

  module _ (key : Text) where
    abbrev told : Bool → Verdict → List Verdict → List Verdict
    told mine v vs = if mine then v ∷ vs else vs

    -- A request, as the requests of the key see it.
    verdicts-cons :
        (bs : List (Text × Bucket)) (j : Text) (now : ℕ) (rest : List (Text × ℕ))
        → verdicts (with_buckets bs) key ((j, now) ∷ rest)
          ≡ told
              (j == key)
              (decided (lookup j bs) now).1
              (verdicts (with_buckets (insert j (decided (lookup j bs) now).0 bs)) key rest)
    unfolding verdicts
    verdicts-cons bs j now rest =
        ap (λ (x : Middleware × Verdict). told (j == key) x.1 (verdicts x.0 key rest))
          (handle_key-decided bs j now)

    run-cons :
        (bs : List (Text × Bucket)) (j : Text) (now : ℕ) (rest : List (Text × ℕ))
        → run (with_buckets bs) ((j, now) ∷ rest)
          ≡ run (with_buckets (insert j (decided (lookup j bs) now).0 bs)) rest
    unfolding run
    run-cons bs j now rest =
        ap (λ (x : Middleware × Verdict). run x.0 rest) (handle_key-decided bs j now)

    -- Two runs with the same verdicts for the key, and the same bucket in the end.
    abbrev Same : (bs cs : List (Text × Bucket)) → (reqs reqs' : List (Text × ℕ)) → Type 0
    Same bs cs reqs reqs' =
        (verdicts (with_buckets bs) key reqs ≡ verdicts (with_buckets cs) key reqs')
        × (lookup key (run (with_buckets bs) reqs).buckets
            ≡ lookup key (run (with_buckets cs) reqs').buckets)

    lookup-other :
        (bs : List (Text × Bucket)) (j : Text) (b : Bucket)
        → (j == key) ≡ false
        → lookup key (insert j b bs) ≡ lookup key bs
    lookup-other bs j b e = lookup-insert j key b bs ∙ rw e refl

    lookup-mine :
        (bs : List (Text × Bucket)) (j : Text) (b : Bucket)
        → (j == key) ≡ true
        → lookup key (insert j b bs) ≡ some b
    lookup-mine bs j b e = lookup-insert j key b bs ∙ rw e refl

    Same-only :
        (reqs : List (Text × ℕ)) (bs cs : List (Text × Bucket))
        → lookup key bs ≡ lookup key cs
        → Same bs cs reqs (only key reqs)
    unfolding only verdicts run
    Same-only [] bs cs h = (refl, h)
    Same-only ((j, now) ∷ rest) bs cs h = by_bool (j == key) refl (Same-only rest)
      where
        b : Bucket
        b = (decided (lookup j bs) now).0

        b' : Bucket
        b' = (decided (lookup j cs) now).0

        mine : (j == key) ≡ true → decided (lookup j bs) now ≡ decided (lookup j cs) now
        mine e =
            let here = (text_eq_iff j key).0 e in
            ap (λ o. decided o now)
              (ap (λ k. lookup k bs) here ∙ (h ∙ ap (λ k. lookup k cs) (sym here)))

        by_bool :
            (own : Bool)
            → (j == key) ≡ own
            → ((ds es : List (Text × Bucket))
                → lookup key ds ≡ lookup key es
                → Same ds es rest (only key rest))
            → Same bs cs ((j, now) ∷ rest) (if own then (j, now) ∷ only key rest else only key rest)
        by_bool true e ih =
            let same = mine e in
            let (vs, end) = ih (insert j b bs) (insert j b' cs) (
              lookup-mine bs j b e
              ∙ (ap (λ (x : Bucket × Verdict). some x.0) same ∙ sym (lookup-mine cs j b' e))) in
            (
              verdicts-cons bs j now rest
                  ∙ (ap
                        (λ (x : Bucket × Verdict).
                          told (j == key) x.1 (verdicts (with_buckets (insert j b bs)) key rest))
                        same
                      ∙ (ap (told (j == key) (decided (lookup j cs) now).1) vs
                          ∙ sym (verdicts-cons cs j now (only key rest)))),
              ap (λ (x : Middleware). lookup key x.buckets) (run-cons bs j now rest)
                  ∙ (end
                      ∙ sym (
                          ap (λ (x : Middleware). lookup key x.buckets)
                            (run-cons cs j now (only key rest)))),
            )
        by_bool false e ih =
            let (vs, end) = ih (insert j b bs) cs (lookup-other bs j b e ∙ h) in
            (
              verdicts-cons bs j now rest ∙ (rw e refl ∙ vs),
              ap (λ (x : Middleware). lookup key x.buckets) (run-cons bs j now rest) ∙ end,
            )

-- What is answered to the requests of a key, and the bucket that it has in the end, do not depend on the
-- requests of other keys: they are the same as when the requests of that key come alone, in their order
-- and at their times, with all the rounding of float64.
pub verdicts-only :
    (m : Middleware) (key : Text) (reqs : List (Text × ℕ))
    → (verdicts m key reqs ≡ verdicts m key (only key reqs))
      × (lookup key (run m reqs).buckets ≡ lookup key (run m (only key reqs)).buckets)
verdicts-only m key reqs = Same-only m key reqs m.buckets m.buckets refl
