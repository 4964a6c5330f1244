-- ===== src/AgentService/Identity.antt =====
-- agent/service.go: the text that `TaskExecID` makes of a task ID and an exec ID.
use abschlussarbeit.Common.{
  String, ◌<◌, Option, none, some, [], ◌∷◌, ◌++◌, ◌≡◌, ◌≢◌, refl, sym, ◌∙◌, ◌==◌, eq_iff, Error,
  join-none, ok, All, All-append, arith, Bool-cases, inl, inr,
}
use abschlussarbeit.Common.Bytes.{Bytes, codes, cut-injective, codes-injective}
use abschlussarbeit.Common.Base64.{encode, encode-injective}
use abschlussarbeit.Common.FilePath.{slash}
use abschlussarbeit.AgentService.{validate_ids, encoded, task_exec_id}

-- What `identifiers.Validate` lets pass is made of ASCII characters, none of them a slash.
abbrev pub IsStrict : (String → Option Error) → Type 0
IsStrict validate =
    (ident : String) → validate ident ≡ none → All (λ c. (c < 128) × (c ≢ slash)) (codes ident)

weaken : (bs : Bytes) → All (λ c. (c < 128) × (c ≢ slash)) bs → All (λ c. c < 256) bs
weaken [] h = tt
weaken (c ∷ bs) h = (omega arith, weaken bs h.1)

no_slash : (bs : Bytes) → All (λ c. (c < 128) × (c ≢ slash)) bs → All (λ c. c ≢ slash) bs
no_slash [] h = tt
no_slash (c ∷ bs) h = (h.0.1, no_slash bs h.1)

module _ (validate : String → Option Error) (strict : IsStrict validate) where
  -- Both IDs are strict once they were validated, an empty exec ID included.
  validate_ids-strict :
      (t e : String)
      → validate_ids validate t e ≡ none
      → All (λ c. (c < 128) × (c ≢ slash)) (codes t) × All (λ c. (c < 128) × (c ≢ slash)) (codes e)
  unfolding validate_ids
  validate_ids-strict t e h = elim (Bool-cases (e == "")) [
    | inl same ↦ (strict t (rw same at h), rw ((eq_iff e "").0 same) tt)
    | inr other ↦
        let both : (validate t ≡ none) × (validate e ≡ none) =
          join-none (validate t) (validate e) (rw other at h) in
        (strict t both.0, strict e both.1)
  ]

  encoded_ok :
      (t e : String) (o : Option Error) (k : Bytes)
      → encoded t e o ≡ ok k
      → (o ≡ none) × (k ≡ encode (codes t ++ (slash ∷ codes e)))
  encoded_ok t e none k h = (refl, ground arith)
  encoded_ok t e (some x) k h = cc

  -- No two processes have one text, if the IDs that pass the validation are ASCII texts without a
  -- slash: from the text both IDs are known.
  pub task_exec_id-injective :
      (t u e f : String) (k : Bytes)
      → task_exec_id validate t e ≡ ok k
      → task_exec_id validate u f ≡ ok k
      → (t ≡ u) × (e ≡ f)
  unfolding task_exec_id
  task_exec_id-injective t u e f k h h' =
      let a = encoded_ok t e (validate_ids validate t e) k h in
      let b = encoded_ok u f (validate_ids validate u f) k h' in
      let p = validate_ids-strict t e a.0 in
      let q = validate_ids-strict u f b.0 in
      let same : codes t ++ (slash ∷ codes e) ≡ codes u ++ (slash ∷ codes f) =
        encode-injective (codes t ++ (slash ∷ codes e)) (codes u ++ (slash ∷ codes f))
          (All-append (λ c. c < 256) (codes t) (slash ∷ codes e) (weaken (codes t) p.0)
            (omega arith, weaken (codes e) p.1))
          (All-append (λ c. c < 256) (codes u) (slash ∷ codes f) (weaken (codes u) q.0)
            (omega arith, weaken (codes f) q.1))
          (sym a.1 ∙ b.1) in
      let cut =
        cut-injective slash (codes t) (codes u) (codes e) (codes f) (no_slash (codes t) p.0)
          (no_slash (codes u) q.0) same in
      (codes-injective t u cut.0, codes-injective e f cut.1)
