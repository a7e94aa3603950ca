-- ===== src/Http/Retries.antt =====
-- The loop of `HttpClient.request`, src/core/http.py: an induction over its attempts, and the bounds on
-- the attempts and the pauses.
use sibilla.Base.{
  ℕ, zero, suc, ◌+◌, ◌≤◌, ◌==◌, Text, List, [], ◌∷◌, ◌++◌, length, length-append, All, All-append,
  Option, none, some, Result, ok, err, ◌≡◌, ◌≢◌, refl, ◌⊎◌, inl, inr, subst, true, Bool-cases,
  ==_iff, ◌-◌, arith,
}
use sibilla.Float.{Float, IsFloat, ◌⊗◌, ◌≼◌}
use sibilla.Float.Laws.{fmin-le_right}
use sibilla.RateLimit.Breaker.{UpstreamError, guard}
use sibilla.Http.{
  HttpClient, Try, Failure, Ending, waiting, returned, raised_through, failed, attempt,
}
use sibilla.Http.Request.{
  count_failure, falls_back_to_direct, falls_back_to_doh, Called, Verdict, pending, response,
  raised, other, handle, exhausted, same_error, next_delay, attempts_from, attempts_of, guarded,
  request,
}

Ending-cases :
    (e : Ending)
    → ((e ≡ waiting) ⊎ ((s : ℕ) × (e ≡ returned s)))
      ⊎ (((m : Text) × (e ≡ raised_through m)) ⊎ ((f : Failure) × (e ≡ failed f)))
Ending-cases waiting = inl (inl refl)
Ending-cases (returned s) = inl (inr (s, refl))
Ending-cases (raised_through m) = inr (inl (m, refl))
Ending-cases (failed f) = inr (inr (f, refl))

Verdict-cases :
    (v : Verdict)
    → ((v ≡ Verdict.go_on) ⊎ (v ≡ Verdict.pause)) ⊎ ((v ≡ Verdict.give_up) ⊎ (v ≡ Verdict.raise_it))
Verdict-cases Verdict.go_on = inl (inl refl)
Verdict-cases Verdict.pause = inl (inr refl)
Verdict-cases Verdict.give_up = inr (inl refl)
Verdict-cases Verdict.raise_it = inr (inr refl)

-- The state of the loop: the attempts left and made, the delay, the pauses, the last failure.
pub record Loop (W : Type 0) : Type 0 where
  pub left : ℕ
  pub made : ℕ
  pub delay : W
  pub slept : List W
  pub last : Option Failure
  pub client : HttpClient W

abbrev pub after_failure : {W : Type 0} → ℕ → ℕ → W → List W → Failure → HttpClient W → Loop W
after_failure left made delay slept f c = record {
  left = left;
  made = made;
  delay = delay;
  slept = slept;
  last = some f;
  client = c;
}

module _ {W : Type 0} ⦃F : Float W⦄ where
  -- What has to hold of an invariant of the loop and of what it ends with.
  pub record IsPreserved (tries : ℕ → Try W) (closing : W) (I : Loop W → Type 0)
      (Q : Called W → Type 0) : Type 0 where
    pub at_end :
        (l : Loop W) → I l → l.left ≡ 0 → Q (exhausted closing l.last l.slept l.made l.client)
    pub at_wait :
        (l : Loop W) (left : ℕ)
        → I l
        → l.left ≡ suc left
        → (attempt (tries l.made) l.client).ending ≡ waiting
        → Q (record {
          client = (attempt (tries l.made) l.client).client;
          outcome = pending;
          slept = l.slept;
          attempts = suc l.made;
        })
    pub at_return :
        (l : Loop W) (left status : ℕ)
        → I l
        → l.left ≡ suc left
        → (attempt (tries l.made) l.client).ending ≡ returned status
        → Q (record {
          client = (attempt (tries l.made) l.client).client;
          outcome = response status;
          slept = l.slept;
          attempts = suc l.made;
        })
    pub at_escape :
        (l : Loop W) (left : ℕ) (m : Text)
        → I l
        → l.left ≡ suc left
        → (attempt (tries l.made) l.client).ending ≡ raised_through m
        → Q (record {
          client = (attempt (tries l.made) l.client).client;
          outcome = raised (other m);
          slept = l.slept;
          attempts = suc l.made;
        })
    pub at_failure :
        (l : Loop W) (left : ℕ) (f : Failure)
        → I l
        → l.left ≡ suc left
        → (attempt (tries l.made) l.client).ending ≡ failed f
        → let h = handle (left == 0) (tries l.made) f (attempt (tries l.made) l.client).client in
          (h.verdict ≡ Verdict.go_on
            → I (after_failure left (suc l.made) l.delay l.slept f h.client))
          × (h.verdict ≡ Verdict.pause
              → I (
                  after_failure left
                    (suc l.made)
                    (next_delay l.delay)
                    (l.slept ++ (l.delay ∷ []))
                    f
                    h.client))
          × (h.verdict ≡ Verdict.give_up
              → Q (exhausted closing (some f) l.slept (suc l.made) h.client))
          × (h.verdict ≡ Verdict.raise_it
              → Q (record {
                client = h.client;
                outcome = raised (same_error f);
                slept = l.slept;
                attempts = suc l.made;
              }))

  -- An invariant of the loop holds of what the loop ends with.
  pub attempts_from-induct :
      (tries : ℕ → Try W) (closing : W) (I : Loop W → Type 0) (Q : Called W → Type 0)
      → IsPreserved tries closing I Q
      → (left made : ℕ) (delay : W) (slept : List W) (last : Option Failure) (c : HttpClient W)
      → I (record {
        left = left;
        made = made;
        delay = delay;
        slept = slept;
        last = last;
        client = c;
      })
      → Q (attempts_from tries closing left made delay slept last c)
  unfolding attempts_from
  attempts_from-induct tries closing I Q k zero made delay slept last c i = k.at_end _ i refl
  attempts_from-induct tries closing I Q k (suc left) made delay slept last c i =
      let a = attempt (tries made) c in
      elim (Ending-cases a.ending) [
        | inl (inl e) ↦ rw (e, attempts_from) (k.at_wait _ left i refl e)
        | inl (inr (s, e)) ↦ rw (e, attempts_from) (k.at_return _ left s i refl e)
        | inr (inl (m, e)) ↦ rw (e, attempts_from) (k.at_escape _ left m i refl e)
        | inr (inr (f, e)) ↦
            let h = handle (left == 0) (tries made) f a.client in
            let (goes, pauses, gives, raises) = k.at_failure _ left f i refl e in
            elim (Verdict-cases h.verdict) [
              | inl (inl v) ↦
                  rw (e, attempts_from)
                    (rw (v, attempts_from)
                      (attempts_from-induct tries closing I Q k left (suc made) delay slept (some f)
                        h.client (goes v)))
              | inl (inr v) ↦
                  rw (e, attempts_from)
                    (rw (v, attempts_from)
                      (attempts_from-induct tries closing I Q k left (suc made) (next_delay delay)
                        (slept ++ (delay ∷ [])) (some f) h.client (pauses v)))
              | inr (inl v) ↦ rw (e, attempts_from) (rw (v, attempts_from) (gives v))
              | inr (inr v) ↦ rw (e, attempts_from) (rw (v, attempts_from) (raises v))
            ]
      ]

  count_failure-last :
      (now : W) (f : Failure) (c : HttpClient W)
      → (count_failure true now f c).verdict ≢ Verdict.pause
  unfolding count_failure
  count_failure-last now f c h = ground arith

  handle-last :
      (t : Try W) (f : Failure) (c : HttpClient W) → (handle true t f c).verdict ≢ Verdict.pause
  unfolding handle
  handle-last t f c = elim (Bool-cases (falls_back_to_direct f c)) [
    | inl direct ↦ rw (direct, handle) (λ h. ground arith)
    | inr direct ↦ elim (Bool-cases (falls_back_to_doh t f c)) [
      | inl doh ↦ rw (direct, handle) (rw (doh, handle) (λ h. ground arith))
      | inr doh ↦ rw (direct, handle) (rw (doh, handle) (count_failure-last t.now f c))
    ]
  ]

  -- The loop within its bounds: no pause is over eight seconds, and each stands between two attempts.
  abbrev IsPaced : ℕ → Loop W → Type 0
  IsPaced total l =
      ((l.delay ≼ F.lit 80 1) × All (λ d. d ≼ F.lit 80 1) l.slept)
      × ((l.left + l.made ≡ total)
          × (length l.slept ≤ l.made)
          × (l.left ≡ 0 → length l.slept ≤ l.made - 1))

  abbrev pub IsBounded : ℕ → Called W → Type 0
  IsBounded total r =
      All (λ d. d ≼ F.lit 80 1) r.slept × ((r.attempts ≤ total) × (length r.slept ≤ r.attempts - 1))

module _ {W : Type 0} ⦃F : Float W⦄ (L : IsFloat W) where
  IsPaced-failure :
      (total : ℕ) (l : Loop W) (left : ℕ) (t : Try W) (f : Failure) (c : HttpClient W)
      → IsPaced total l
      → l.left ≡ suc left
      → (handle (left == 0) t f c).verdict ≡ Verdict.pause
      → IsPaced total (
          after_failure left
            (suc l.made)
            (next_delay l.delay)
            (l.slept ++ (l.delay ∷ []))
            f
            (handle (left == 0) t f c).client)
  IsPaced-failure total l left t f c ((d, ds), (sum, few, last)) k v =
      let added = length-append l.slept (l.delay ∷ []) in
      (
        (
          fmin-le_right L (l.delay ⊗ F.lit 2 0) (F.lit 80 1),
          All-append (λ d. d ≼ F.lit 80 1) l.slept (l.delay ∷ []) ds (d, tt),
        ),
        (
          omega (arith, sum, k),
          omega (arith, added, few),
          λ z. absurd (
              handle-last t f c
                (subst (λ b. (handle b t f c).verdict ≡ Verdict.pause) ((==_iff left 0).1 z) v)),
        ),
      )

  paced :
      (tries : ℕ → Try W) (closing : W) (total : ℕ)
      → IsPreserved tries closing (IsPaced total) (IsBounded total)
  unfolding exhausted
  paced tries closing total = record {
    at_end = λ l ((d, ds), (sum, few, last)) z. (ds, (omega (arith, sum, z), last z));
    at_wait =
        λ l left ((d, ds), (sum, few, last)) k e. (ds, (omega (arith, sum, k), omega (arith, few)));
    at_return = λ l left s ((d, ds), (sum, few, last)) k e.
        (ds, (omega (arith, sum, k), omega (arith, few)));
    at_escape = λ l left m ((d, ds), (sum, few, last)) k e.
        (ds, (omega (arith, sum, k), omega (arith, few)));
    at_failure = λ l left f i k e.
        let ((d, ds), (sum, few, last)) = i in
        let t = tries l.made in
        let c = (attempt t l.client).client in
        (
          λ v. ((d, ds), (omega (arith, sum, k), omega (arith, few), λ z. omega (arith, few))),
          λ v. IsPaced-failure total l left t f c i k v,
          λ v. (ds, (omega (arith, sum, k), omega (arith, few))),
          λ v. (ds, (omega (arith, sum, k), omega (arith, few))),
        );
  }

  guarded-IsBounded :
      (tries : ℕ → Try W) (closing : W) (retries : Option ℕ) (g : Result UpstreamError (Unit {0}))
      (c : HttpClient W)
      → IsBounded (attempts_of retries c) (guarded tries closing retries g c)
  unfolding guarded
  guarded-IsBounded tries closing retries (err e) c = (tt, (omega arith, omega arith))
  guarded-IsBounded tries closing retries (ok x) c =
      let total = attempts_of retries c in
      attempts_from-induct tries closing (IsPaced total) (IsBounded total)
        (paced tries closing total) total 0 (F.lit 5 1) [] none c
        ((L.lit_mono 5 1 80 1 (omega arith), tt), (omega arith, omega arith, λ z. omega arith))

  attempts_of-breaker :
      (retries : Option ℕ) (c d : HttpClient W)
      → c.max_retries ≡ d.max_retries
      → attempts_of retries c ≡ attempts_of retries d
  attempts_of-breaker none c d h = h
  attempts_of-breaker (some n) c d h = refl

  -- A call makes at most the attempts that it may make, whatever the server does, and so ends unless
  -- it waits for a token; it pauses only between attempts, and never longer than eight seconds.
  pub request-IsBounded :
      (tries : ℕ → Try W) (opening closing : W) (retries : Option ℕ) (c : HttpClient W)
      → IsBounded (attempts_of retries c) (request tries opening closing retries c)
  unfolding request
  request-IsBounded tries opening closing retries c =
      let g = guard opening c.breaker in
      let d = record c { breaker = g.1 } in
      subst (λ n. IsBounded n (guarded tries closing retries g.0 d))
        (attempts_of-breaker retries d c refl) (guarded-IsBounded tries closing retries g.0 d)
