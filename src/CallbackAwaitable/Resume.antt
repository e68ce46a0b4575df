-- ===== src/CallbackAwaitable/Resume.antt =====
-- About the one resumption of a task that awaits callbacks, and the results that it finds.
use tmc_examples.Base.{
  ℕ, suc, ◌+◌, ◌-◌, ◌<◌, ◌≡◌, ◌≢◌, ◌⊎◌, refl, sym, ap, ◌∙◌, arith, inl, inr, Bool, true, false,
  some, List, [], ◌∷◌, ◌++◌, ◌==◌, if◌then◌else◌, length, length-append, ==_iff, Bool-cases,
}
use tmc_examples.CallbackAwaitable.{
  Customizer, Storage, plain, optional, Awaiting, await_suspend, store_result, resume_if, callback,
  callbacks, await_resume,
}

module _ (lib : Customizer) {R : Type 0} where
  -- Before the last callback, one more stores its result and resumes nothing.
  not_last :
      (i n : ℕ) (r : R) (aw : Awaiting lib R)
      → lib.remaining aw.shared ≡ suc (suc n)
      → (lib.remaining (callback lib i r aw).shared ≡ suc n)
        × ((callback lib i r aw).resumed ≡ aw.resumed)
  unfolding callback resume_if
  not_last i n r aw e =
      let l : (lib.resume_continuation aw.shared).0 ≡ false =
        lib.is_last aw.shared (suc n) e ∙ ground arith in
      (rw l (lib.remaining-resume_continuation aw.shared (suc n) e), rw l refl)

  waits :
      (events : List (ℕ × R)) (n : ℕ) (aw : Awaiting lib R)
      → lib.remaining aw.shared ≡ suc n + length events
      → (callbacks lib events aw).resumed ≡ aw.resumed
  unfolding callbacks
  waits [] n aw e = refl
  waits ((i, r) ∷ events) n aw e =
      let (f, g) = not_last i (n + length events) r aw (omega arith) in
      waits events n (callback lib i r aw) (omega arith) ∙ g

  -- While fewer callbacks have come than awaitables were initiated, the task is not resumed.
  pub waits_for_all :
      (events : List (ℕ × R)) (count : ℕ) (initial : ℕ → Storage R)
      → length events < count
      → (callbacks lib events (await_suspend lib count initial)).resumed ≡ []
  unfolding await_suspend
  waits_for_all events count initial h =
      waits events (count - length events - 1) (await_suspend lib count initial)
        (lib.remaining-shared_by count ∙ omega arith)

  -- The last callback resumes the task, which finds the results as they are then.
  resumes :
      (events : List (ℕ × R)) (aw : Awaiting lib R)
      → lib.remaining aw.shared ≡ length events
      → 0 < length events
      → (callbacks lib events aw).resumed ≡ aw.resumed ++ (callbacks lib events aw).results ∷ []
  unfolding callbacks callback resume_if
  resumes [] aw e h = absurd (omega arith)
  resumes ((i, r) ∷ []) aw e h = rw (lib.is_last aw.shared 0 e) refl
  resumes ((i, r) ∷ event ∷ events) aw e h =
      let (f, g) = not_last i (length events) r aw e in
      resumes (event ∷ events) (callback lib i r aw) f (omega arith)
      ∙ ap (λ t. t ++ (callbacks lib (event ∷ events) (callback lib i r aw)).results ∷ []) g

  -- No callback of these is the one of awaitable `i`.
  abbrev pub NotAmong : ℕ → List (ℕ × R) → Type 0
  NotAmong i [] = Unit
  NotAmong i ((j, r) ∷ events) = (i ≢ j) × NotAmong i events

  resume_if-results : (b : Bool) (aw : Awaiting lib R) → (resume_if lib b aw).results ≡ aw.results
  unfolding resume_if
  resume_if-results true aw = refl
  resume_if-results false aw = refl

  callback-results :
      (i j : ℕ) (r : R) (aw : Awaiting lib R)
      → (callback lib j r aw).results i
        ≡ (if i == j then store_result lib r (aw.results i) else aw.results i)
  unfolding callback
  callback-results i j r aw =
      let stored = λ (x : ℕ). if x == j then store_result lib r (aw.results x) else aw.results x in
      let next = lib.resume_continuation aw.shared in
      let e : (resume_if lib next.0 (record aw { results = stored; shared = next.1 })).results
          ≡ stored =
        resume_if-results next.0 (record aw { results = stored; shared = next.1 }) in
      ap (λ (t : ℕ → Storage R). t i) e

  others_keep :
      (i : ℕ) (events : List (ℕ × R)) (aw : Awaiting lib R)
      → NotAmong i events
      → (callbacks lib events aw).results i ≡ aw.results i
  unfolding callbacks
  others_keep i [] aw h = refl
  others_keep i ((j, r) ∷ events) aw h =
      others_keep i events (callback lib j r aw) h.1
      ∙ callback-results i j r aw
      ∙ apart (Bool-cases (i == j))
    where
      apart :
          ((i == j) ≡ true) ⊎ ((i == j) ≡ false)
          → (if i == j then store_result lib r (aw.results i) else aw.results i) ≡ aw.results i
      apart (inl e) = absurd (h.0 ((==_iff i j).0 e))
      apart (inr e) = rw e refl

  await_resume-store_result : (r : R) (s : Storage R) → await_resume (store_result lib r s) ≡ some r
  unfolding await_resume store_result
  await_resume-store_result r (plain old) = refl
  await_resume-store_result r (optional old) = refl

  finds :
      (before after : List (ℕ × R)) (i : ℕ) (r : R) (aw : Awaiting lib R)
      → NotAmong i after
      → await_resume ((callbacks lib (before ++ (i, r) ∷ after) aw).results i) ≡ some r
  unfolding callbacks
  finds [] after i r aw h =
      ap await_resume (others_keep i after (callback lib i r aw) h ∙ callback-results i i r aw)
      ∙ rw ((==_iff i i).1 refl) (await_resume-store_result r (aw.results i))
  finds ((j, q) ∷ before) after i r aw h = finds before after i r (callback lib j q aw) h

  -- When as many callbacks have come as awaitables were initiated, in whatever order, the task is
  -- resumed just once, and finds for each awaitable that called back once the results of that
  -- callback, whichever of the two storages holds them.
  pub resumes_once :
      (before after : List (ℕ × R)) (i : ℕ) (r : R) (count : ℕ) (initial : ℕ → Storage R)
      → length (before ++ (i, r) ∷ after) ≡ count
      → NotAmong i after
      → (found : ℕ → Storage R) × ((callbacks lib
            (before ++ (i, r) ∷ after)
            (await_suspend lib count initial)).resumed
          ≡ found ∷ [])
        × (await_resume (found i) ≡ some r)
  unfolding await_suspend
  resumes_once before after i r count initial e h =
      let aw = await_suspend lib count initial in
      (
        (callbacks lib (before ++ (i, r) ∷ after) aw).results,
        resumes (before ++ (i, r) ∷ after) aw (lib.remaining-shared_by count ∙ sym e)
            (omega (arith, length-append before ((i, r) ∷ after))),
        finds before after i r aw h,
      )
