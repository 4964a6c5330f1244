-- ===== src/Common/FilePath/Plain.antt =====
-- Joining a plain file name to a directory, and taking it off again.
pub mod Rooted
use Prim.Native.Nat.{ℕ}
use mathlib.Core.Path.{◌≡◌, refl, sym, ap, ◌∙◌}
use mathlib.Core.Logic.{◌≢◌}
use mathlib.Core.Bool.{Bool, true, false}
use mathlib.Core.List.{List, [], ◌∷◌, ◌++◌, reverse, reverse-append, append_assoc}
use native.Mathlib.Omega.{arith}
use abschlussarbeit.Common.Tests.{if◌then◌else◌}
use abschlussarbeit.Common.Lists.{All}
use abschlussarbeit.Common.Bytes.{Bytes, bytes_eq, codes}
use abschlussarbeit.Common.FilePath.{
  slash, split, is_rooted, join_parts, clean_parts, keep_part, or_dot, clean, join, last_part,
  or_slash, base,
}

-- A name that is one part of a path and stays in a clean one.
pub record IsPlain (p : Bytes) : Type 0 where
  pub no_slash : All (λ c. c ≢ slash) p
  pub some_byte : bytes_eq p [] ≡ false
  pub not_dot : bytes_eq p (codes ".") ≡ false
  pub not_dot_dot : bytes_eq p (codes "..") ≡ false

pub split-append : (s t : Bytes) → split (s ++ (slash ∷ t)) ≡ split s ++ split t
unfolding split
split-append [] t = refl
split-append (c ∷ s) t = ground (arith, split-append s t, split_cons s)
  where
    split_cons : (s : Bytes) → split s ≢ []
    split_cons [] = λ e. cc
    split_cons (c ∷ s) = ground arith

pub split-plain : (p : Bytes) → All (λ c. c ≢ slash) p → split p ≡ p ∷ []
unfolding split
split-plain [] h = refl
split-plain (c ∷ s) h = ground (arith, split-plain s)

last_part-append :
    (found : Bytes) (ps : List Bytes) (p : Bytes)
    → bytes_eq p [] ≡ false
    → last_part found (ps ++ p ∷ []) ≡ p
unfolding last_part
last_part-append found [] p h = rw h
last_part-append found (q ∷ ps) p h = last_part-append (if bytes_eq q [] then found else q) ps p h

clean_parts-append :
    (r : Bool) (kept ps qs : List Bytes)
    → clean_parts r kept (ps ++ qs) ≡ clean_parts r (clean_parts r kept ps) qs
unfolding clean_parts
clean_parts-append r kept [] qs = refl
clean_parts-append r kept (p ∷ ps) qs = clean_parts-append r (keep_part r kept p) ps qs

module _ {p : Bytes} (plain : IsPlain p) where
  clean_parts-plain : (r : Bool) (kept : List Bytes) → clean_parts r kept (p ∷ []) ≡ p ∷ kept
  unfolding clean_parts
  clean_parts-plain r kept = rw (plain.some_byte, plain.not_dot, plain.not_dot_dot)

  not-nil : [] ≢ p
  unfolding bytes_eq
  not-nil e = ground (arith, plain.some_byte)

  no_empty_split : (ps : List Bytes) → [] ∷ [] ≡ ps ++ p ∷ [] → ⊥
  unfolding last_part bytes_eq
  no_empty_split ps h =
      not-nil (ap (λ (l : List Bytes). last_part [] l) h ∙ last_part-append [] ps p plain.some_byte)

  -- The base of a text whose last part is the name.
  base_of_split : (s : Bytes) (ps : List Bytes) → split s ≡ ps ++ p ∷ [] → base s ≡ p
  unfolding base split
  base_of_split [] ps h = absurd (no_empty_split ps h)
  base_of_split (c ∷ s) ps h = rw h (rw (last_part-append [] ps p plain.some_byte) or_slash-plain)
    where
      or_slash-plain : or_slash p ≡ p
      or_slash-plain = ground (arith, not-nil)

  pub base-plain : base p ≡ p
  base-plain = base_of_split p [] (split-plain p plain.no_slash)

  split-join_parts :
      (xs : List Bytes) → (ps : List Bytes) × (split (join_parts (xs ++ p ∷ [])) ≡ ps ++ p ∷ [])
  unfolding join_parts
  split-join_parts [] = ([], split-plain p plain.no_slash)
  split-join_parts (x ∷ []) =
      (split x, split-append x p ∙ ap (λ l. split x ++ l) (split-plain p plain.no_slash))
  split-join_parts (x ∷ y ∷ xs) =
      let (ps, h) = split-join_parts (y ∷ xs) in
      (
        split x ++ ps,
        split-append x _ ∙ ap (λ l. split x ++ l) h ∙ sym (append_assoc (split x) ps (p ∷ [])),
      )

  base-or_dot : (s : Bytes) (ps : List Bytes) → split s ≡ ps ++ p ∷ [] → base (or_dot s) ≡ p
  unfolding split
  base-or_dot [] ps h = absurd (no_empty_split ps h)
  base-or_dot (c ∷ s) ps h = base_of_split (c ∷ s) ps h

  parts_of_joined :
      (r : Bool) (s : Bytes)
      → reverse (clean_parts r [] (split (s ++ (slash ∷ p))))
        ≡ reverse (clean_parts r [] (split s)) ++ p ∷ []
  parts_of_joined r s =
      rw
        (
          split-append s p,
          split-plain p plain.no_slash,
          clean_parts-append r [] (split s) (p ∷ []),
          clean_parts-plain r (clean_parts r [] (split s)),
        )
        (reverse-append (p ∷ []) (clean_parts r [] (split s)))

  branches :
      (r : Bool) (body : Bytes) (ps : List Bytes)
      → split body ≡ ps ++ p ∷ []
      → base (if r then slash ∷ body else or_dot body) ≡ p
  branches true body ps h =
      base_of_split (slash ∷ body) ([] ∷ ps) (unfold split in ap (λ l. [] ∷ l) h)
  branches false body ps h = base-or_dot body ps h

  base-clean_self : base (clean p) ≡ p
  unfolding clean
  base-clean_self =
      rw (split-plain p plain.no_slash, clean_parts-plain (is_rooted p) [])
        (branches (is_rooted p) p [] (split-plain p plain.no_slash))

  base-clean : (s : Bytes) → base (clean (s ++ (slash ∷ p))) ≡ p
  unfolding clean
  base-clean s =
      let r = is_rooted (s ++ (slash ∷ p)) in
      let xs = reverse (clean_parts r [] (split s)) in
      let (ps, h) = split-join_parts xs in
      let body = join_parts (xs ++ p ∷ []) in rw (parts_of_joined r s) (branches r body ps h)

  base-join_cons : (c : ℕ) (q dir : Bytes) → p ≡ c ∷ q → base (join dir (c ∷ q)) ≡ p
  unfolding join
  base-join_cons c q [] e = ap (λ (l : Bytes). base (clean l)) (sym e) ∙ base-clean_self
  base-join_cons c q (b ∷ s) e =
      ap (λ (l : Bytes). base (clean ((b ∷ s) ++ (slash ∷ l)))) (sym e) ∙ base-clean (b ∷ s)

  base-join_of : (q dir : Bytes) → p ≡ q → base (join dir q) ≡ p
  base-join_of [] dir e = absurd (not-nil (sym e))
  base-join_of (c ∷ q) dir e = base-join_cons c q dir e

  -- `filepath.Base(filepath.Join(dir, name))` is the name.
  pub base-join : (dir : Bytes) → base (join dir p) ≡ p
  base-join dir = base-join_of p dir refl
