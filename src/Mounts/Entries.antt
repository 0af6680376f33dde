-- ===== src/Mounts/Entries.antt =====
-- A JavaScript Map as its entries in the order of insertion, each key once.
use bitsby.Prelude.{
  ◌≡◌, refl, sym, ◌∙◌, ◌⊎◌, inl, inr, Bool, true, Option, none, some, List, [], ◌∷◌, if◌then◌else◌,
  Bool-cases,
}

module _ {K V : Type 0} (same : K → K → Bool) where
  abbrev pub find : K → List (K × V) → Option V
  find key [] = none
  find key ((k, v) ∷ m) = if same k key then some v else find key m

  abbrev pub put : K → V → List (K × V) → List (K × V)
  put key v [] = (key, v) ∷ []
  put key v ((k, w) ∷ m) = if same k key then (k, v) ∷ m else (k, w) ∷ put key v m

  abbrev pub delete : K → List (K × V) → List (K × V)
  delete key [] = []
  delete key ((k, w) ∷ m) = if same k key then delete key m else (k, w) ∷ delete key m

  pub find-delete_same : (key : K) (m : List (K × V)) → find key (delete key m) ≡ none
  find-delete_same key [] = refl
  find-delete_same key ((k, w) ∷ m) = elim (Bool-cases (same k key)) [
    | inl e ↦ rw e (find-delete_same key m)
    | inr e ↦ rw (e, e) (find-delete_same key m)
  ]

  module _ (sound : (a b : K) → same a b ≡ true → a ≡ b) where
    pub find-delete :
        (key other : K) (m : List (K × V))
        → (find key (delete other m) ≡ find key m) ⊎ (find key (delete other m) ≡ none)
    find-delete key other [] = inl refl
    find-delete key other ((k, w) ∷ m) = elim (Bool-cases (same k other)) [
      | inl e ↦ elim (Bool-cases (same k key)) [
        | inl e' ↦
            let same_key : key ≡ other = sym (sound k key e') ∙ sound k other e in
            inr (rw (e, same_key) (find-delete_same other m))
        | inr e' ↦ rw (e, e') (find-delete key other m)
      ]
      | inr e ↦ elim (Bool-cases (same k key)) [
        | inl e' ↦ inl (rw (e, e') refl)
        | inr e' ↦ rw (e, e') (find-delete key other m)
      ]
    ]

    pub find-put :
        (key other : K) (v : V) (m : List (K × V))
        → ((key ≡ other) × (find key (put other v m) ≡ some v))
          ⊎ (find key (put other v m) ≡ find key m)
    find-put key other v [] = elim (Bool-cases (same other key)) [
      | inl e ↦ inl (sym (sound other key e), rw e refl)
      | inr e ↦ inr (rw e refl)
    ]
    find-put key other v ((k, w) ∷ m) = elim (Bool-cases (same k other)) [
      | inl e ↦ elim (Bool-cases (same k key)) [
        | inl e' ↦ inl (sym (sound k key e') ∙ sound k other e, rw (e, e') refl)
        | inr e' ↦ inr (rw (e, e') refl)
      ]
      | inr e ↦ elim (Bool-cases (same k key)) [
        | inl e' ↦ inr (rw (e, e') refl)
        | inr e' ↦ rw (e, e') (find-put key other v m)
      ]
    ]
