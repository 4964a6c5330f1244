-- ===== src/EventBridge/Mixes.antt =====
-- Lists that are a first part of another, and lists that are mixed: how the events of two sources come
-- out of an exchange.
use mathlib.Core.List.{append_assoc}
use abschlussarbeit.Common.{List, [], ◌∷◌, ◌++◌, ◌≡◌, refl, sym, ap, ap₂, ◌∙◌, arith}

abbrev pub IsPrefix : {A : Type 0} → List A → List A → Type 0
IsPrefix {A} front all = (rest : List A) × (front ++ rest ≡ all)

pub trans-IsPrefix :
    {A : Type 0} (xs ys zs : List A) → IsPrefix xs ys → IsPrefix ys zs → IsPrefix xs zs
trans-IsPrefix xs ys zs (r, e) (q, f) = (r ++ q, sym (append_assoc xs r q) ∙ ap (λ l. l ++ q) e ∙ f)

-- Two lists mixed in any way, each in its own order.
pub data Mix {A : Type 0} : List A → List A → List A → Type 0 where
  nothing : Mix [] [] []
  from_left : (x : A) {xs ys zs : List A} → Mix xs ys zs → Mix (x ∷ xs) ys (x ∷ zs)
  from_right : (y : A) {xs ys zs : List A} → Mix xs ys zs → Mix xs (y ∷ ys) (y ∷ zs)

module _ {A : Type 0} where
  tail-IsPrefix : (x z : A) (xs zs : List A) → IsPrefix (x ∷ xs) (z ∷ zs) → (x ≡ z) × IsPrefix xs zs
  tail-IsPrefix x z xs zs (r, e) = (ground arith, (r, ground arith))

  -- A first part of a mix is a mix of first parts.
  pub prefix-Mix :
      (es : List A) {xs ys zs : List A}
      → Mix xs ys zs
      → IsPrefix es zs
      → (mine theirs : List A) × IsPrefix mine xs × IsPrefix theirs ys × Mix mine theirs es
  prefix-Mix [] {xs} {ys} m p = ([], [], (xs, refl), (ys, refl), nothing)
  prefix-Mix (e ∷ es) nothing (r, p) = cc
  prefix-Mix (e ∷ es) (from_left x {xs} {ys} {zs} m) p =
      let (same, rest) = tail-IsPrefix e x es zs p in
      let (mine, theirs, (a, k), b, n) = prefix-Mix es m rest in
      (e ∷ mine, theirs, (a, ap₂ (λ h t. h ∷ t) same k), b, from_left e n)
  prefix-Mix (e ∷ es) (from_right y {xs} {ys} {zs} m) p =
      let (same, rest) = tail-IsPrefix e y es zs p in
      let (mine, theirs, a, (b, k), n) = prefix-Mix es m rest in
      (mine, e ∷ theirs, a, (b, ap₂ (λ h t. h ∷ t) same k), from_right e n)
