-- ===== src/Services/ConsoleHub/Fanout.antt =====
-- src/services/console-hub.ts: what the subscribers are handed.
use mathlib.Core.Bool.{true≢false}
use mathlib.Core.List.{append_assoc, append-nil}
use bitsby.Prelude.{
  member, Distinct, member-append, member-append_self, Distinct-append, ℕ, ◌%◌, ◌≡◌, refl, sym, ap,
  ◌∙◌, Bool, true, false, List, [], ◌∷◌, ◌++◌, ◌==◌, ==_iff, Bool-cases, inl, inr, arith,
  if◌then◌else◌, All,
}
use bitsby.Services.ConsoleHub.{
  Delivery, ConsoleHub, new_hub, deliver, on_output, remove, subscribe, unsubscribe, write, Change,
  joined, left, same, Step, outputs, subscribes, unsubscribes, writes, Steps, stay, next,
}

-- The bytes that a subscriber was handed.
abbrev pub received : ℕ → List Delivery → List ℕ
received sub [] = []
received sub (d ∷ deliveries) =
    let rest = received sub deliveries in if sub == d.subscriber then d.byte ∷ rest else rest

received-append :
    (sub : ℕ) (xs ys : List Delivery) → received sub (xs ++ ys) ≡ received sub xs ++ received sub ys
received-append sub [] ys = refl
received-append sub (d ∷ xs) ys = elim (Bool-cases (sub == d.subscriber)) [
  | inl h ↦ rw h (ap (λ r. d.byte ∷ r) (received-append sub xs ys))
  | inr h ↦ rw h (received-append sub xs ys)
]

deliver-absent :
    (sub b : ℕ) (subs : List ℕ) → member sub subs ≡ false → received sub (deliver b subs) ≡ []
deliver-absent sub b [] h = refl
deliver-absent sub b (x ∷ xs) h = elim (Bool-cases (sub == x)) [
  | inl e ↦ absurd (true≢false (rw e at h))
  | inr e ↦ rw e (deliver-absent sub b xs (rw e at h))
]

deliver-member :
    (sub b : ℕ) (subs : List ℕ)
    → Distinct subs
    → member sub subs ≡ true
    → received sub (deliver b subs) ≡ b ∷ []
deliver-member sub b [] d h = absurd (true≢false (sym h))
deliver-member sub b (x ∷ xs) d h = elim (Bool-cases (sub == x)) [
  | inl e ↦
      let same_sub : sub ≡ x = (==_iff sub x).0 e in
      rw e (ap (λ r. b ∷ r) (deliver-absent sub b xs (rw same_sub d.0)))
  | inr e ↦ rw e (deliver-member sub b xs d.1 (rw e at h))
]

-- Whether a change is the departure of a subscriber.
abbrev pub leaves : ℕ → Change → Bool
leaves sub (joined x) = false
leaves sub (left x) = sub == x
leaves sub same = false

member-remove :
    (sub x : ℕ) (xs : List ℕ) → (sub == x) ≡ false → member sub (remove x xs) ≡ member sub xs
member-remove sub x [] ne = refl
member-remove sub x (y ∷ ys) ne = elim (Bool-cases (x == y)) [
  | inl e ↦
      let apart : (sub == y) ≡ false = ground arith in rw (e, apart) (member-remove sub x ys ne)
  | inr e ↦ rw (e, member-remove sub x ys ne) refl
]

member-remove-false :
    (sub x : ℕ) (xs : List ℕ) → member sub xs ≡ false → member sub (remove x xs) ≡ false
member-remove-false sub x [] h = refl
member-remove-false sub x (y ∷ ys) h = elim (Bool-cases (sub == y)) [
  | inl e ↦ absurd (true≢false (rw e at h))
  | inr e ↦ elim (Bool-cases (x == y)) [
    | inl d ↦ rw d (member-remove-false sub x ys (rw e at h))
    | inr d ↦ rw (d, e) (member-remove-false sub x ys (rw e at h))
  ]
]

Distinct-remove : (x : ℕ) (xs : List ℕ) → Distinct xs → Distinct (remove x xs)
Distinct-remove x [] d = tt
Distinct-remove x (y ∷ ys) d = elim (Bool-cases (x == y)) [
  | inl e ↦ rw e (Distinct-remove x ys d.1)
  | inr e ↦ rw e (member-remove-false y x ys d.0, Distinct-remove x ys d.1)
]

-- The set of subscribers stays without duplicates.
Step-Distinct :
    (h k : ConsoleHub) (out : List ℕ) (c : Change)
    → Step h out c k
    → Distinct h.subscribers
    → Distinct k.subscribers
unfolding on_output subscribe unsubscribe write
Step-Distinct h k out c (outputs byte _) d = d
Step-Distinct h k out c (subscribes x _) d = elim (Bool-cases (member x h.subscribers)) [
  | inl e ↦ rw e d
  | inr e ↦ rw e (Distinct-append x h.subscribers e d)
]
Step-Distinct h k out c (unsubscribes x _) d = Distinct-remove x h.subscribers d
Step-Distinct h k out c (writes bytes _) d = d

Steps-Distinct :
    (h k : ConsoleHub) (out : List ℕ) (cs : List Change)
    → Steps h out cs k
    → Distinct h.subscribers
    → Distinct k.subscribers
Steps-Distinct h k out cs (stay _) d = d
Steps-Distinct h k out cs (next _ l _ one more c more_cs first rest) d =
    Steps-Distinct l k more more_cs rest (Step-Distinct h l one c first d)

-- A subscriber that stays in the set is handed what the machine puts out.
abbrev Handed : ℕ → ConsoleHub → List ℕ → ConsoleHub → Type 0
Handed sub h out k =
    (received sub k.delivered ≡ received sub h.delivered ++ out) × (member sub k.subscribers ≡ true)

Step-Handed :
    (sub : ℕ) (h k : ConsoleHub) (out : List ℕ) (c : Change)
    → Step h out c k
    → leaves sub c ≡ false
    → Distinct h.subscribers
    → member sub h.subscribers ≡ true
    → Handed sub h out k
unfolding on_output subscribe unsubscribe write
Step-Handed sub h k out c (outputs byte _) stays d m = (
  received-append sub h.delivered (deliver (byte % 256) h.subscribers)
      ∙ ap (λ r. received sub h.delivered ++ r) (deliver-member sub (byte % 256) h.subscribers d m),
  m,
)
Step-Handed sub h k out c (subscribes x _) stays d m = elim (Bool-cases (member x h.subscribers)) [
  | inl e ↦ rw e (sym (append-nil (received sub h.delivered)), m)
  | inr e ↦ rw e (sym (append-nil (received sub h.delivered)), member-append sub x h.subscribers m)
]
Step-Handed sub h k out c (unsubscribes x _) stays d m =
    (sym (append-nil (received sub h.delivered)), member-remove sub x h.subscribers stays ∙ m)
Step-Handed sub h k out c (writes bytes _) stays d m =
    (sym (append-nil (received sub h.delivered)), m)

Steps-Handed :
    (sub : ℕ) (h k : ConsoleHub) (out : List ℕ) (cs : List Change)
    → Steps h out cs k
    → All (λ c. leaves sub c ≡ false) cs
    → Distinct h.subscribers
    → member sub h.subscribers ≡ true
    → Handed sub h out k
Steps-Handed sub h k out cs (stay _) stays d m = (sym (append-nil (received sub h.delivered)), m)
Steps-Handed sub h k out cs (next _ l _ one more c more_cs first rest) stays d m =
    let a = Step-Handed sub h l one c first stays.0 d m in
    let b = Steps-Handed sub l k more more_cs rest stays.1 (Step-Distinct h l one c first d) a.1 in
    (b.0 ∙ ap (λ r. r ++ more) a.0 ∙ append_assoc (received sub h.delivered) one more, b.1)

-- A subscriber that subscribes to a hub, whatever happened before, and is not unsubscribed is
-- handed each byte that the machine puts out from then on, once and in order, whatever other
-- subscribers come and go.
pub subscriber-received :
    (sub : ℕ) (h k : ConsoleHub) (before out : List ℕ) (cs ds : List Change)
    → Steps new_hub before cs h
    → Steps (subscribe sub h) out ds k
    → All (λ c. leaves sub c ≡ false) ds
    → received sub k.delivered ≡ received sub h.delivered ++ out
unfolding subscribe
subscriber-received sub h k before out cs ds made later stays =
    let d = Steps-Distinct new_hub h before cs made tt in
    let joined_d = Step-Distinct h (subscribe sub h) [] (joined sub) (subscribes sub h) d in
    elim (Bool-cases (member sub h.subscribers)) [
      | inl e ↦ (Steps-Handed sub (subscribe sub h) k out ds later stays joined_d (rw e e)).0
      | inr e ↦
          (Steps-Handed sub (subscribe sub h) k out ds later stays joined_d
            (rw e (member-append_self sub h.subscribers))).0
    ]
