-- ===== src/Manager/Options/Namespaces.antt =====
-- What WATCH_NAMESPACE restricts the cache to.
use ptp_operator_upstream.Base.{
  true, false, none, some, List, [], ◌∷◌, ◌≡◌, ◌↔◌, ◌⊎◌, inl, inr, refl, ◌≢◌, All, Bool-cases,
}
use ptp_operator_upstream.Base.Distinct.{Has, Distinct}
use ptp_operator_upstream.Base.Text.{Text, same, same_iff}
use ptp_operator_upstream.Base.GoMap.{GoMap, keys, put, put-Distinct, Has-put}
use ptp_operator_upstream.Controllers.OperatorController.{join_commas}
use ptp_operator_upstream.Controllers.OperatorController.Joined.{HasNoComma, split-join_commas}
use ptp_operator_upstream.Manager.Options.{add_namespaces, watched_namespaces}

add_namespaces-Distinct :
    (m : GoMap (Unit {0})) (l : List Text)
    → Distinct (keys m)
    → Distinct (keys (add_namespaces m l))
unfolding add_namespaces
add_namespaces-Distinct m [] d = d
add_namespaces-Distinct m (n ∷ l) d = add_namespaces-Distinct (put n tt m) l (put-Distinct n tt m d)

Has-put_self : (n : Text) (m : GoMap (Unit {0})) → Has n (keys (put n tt m))
unfolding put
Has-put_self n [] = inl refl
Has-put_self n ((j, v) ∷ m) = elim (Bool-cases (same j n)) [
  | inl e ↦ rw e (inl ((same_iff j n).0 e))
  | inr e ↦ rw e (inr (Has-put_self n m))
]

Has-put_other : (n k : Text) (m : GoMap (Unit {0})) → Has k (keys m) → Has k (keys (put n tt m))
unfolding put
Has-put_other n k ((j, v) ∷ m) h = elim (Bool-cases (same j n)) [
  | inl e ↦ rw e h
  | inr e ↦ rw e (elim h [ inl f ↦ inl f | inr f ↦ inr (Has-put_other n k m f) ])
]
Has-put_other n k [] h = absurd h

-- The keys are those that were there and those that are added.
add_namespaces_iff :
    (m : GoMap (Unit {0})) (l : List Text) (n : Text)
    → (Has n (keys (add_namespaces m l))) ↔ (Has n (keys m) ⊎ Has n l)
unfolding add_namespaces
add_namespaces_iff m [] n = ((λ h. inl h), (λ h. elim h [ inl f ↦ f | inr f ↦ absurd f ]))
add_namespaces_iff m (k ∷ l) n =
    let rest = add_namespaces_iff (put k tt m) l n in
    (
      (λ h. elim (rest.0 h) [
        | inl f ↦ elim (Has-put k n tt m f) [ inl g ↦ inr (inl g) | inr g ↦ inl g ]
        | inr f ↦ inr (inr f)
      ]),
      (λ h. rest.1 (elim h [
        | inl f ↦ inl (Has-put_other k n m f)
        | inr (inl g) ↦ inl (rw (← g) (Has-put_self k m))
        | inr (inr g) ↦ inr g
      ])),
    )

-- If WATCH_NAMESPACE holds the names of a list of namespaces, separated by commas, and is not empty,
-- then the cache is restricted to exactly these namespaces, each of them once; an empty variable
-- restricts nothing.
pub watched_namespaces-join_commas :
    (x : Text) (l : List Text)
    → All HasNoComma (x ∷ l)
    → join_commas (x ∷ l) ≢ []
    → (watched_namespaces [] ≡ none)
      × ((m : GoMap (Unit {0})) × (watched_namespaces (join_commas (x ∷ l)) ≡ some m)
          × Distinct (keys m)
          × ((n : Text) → (Has n (keys m)) ↔ (Has n (x ∷ l))))
unfolding watched_namespaces same
watched_namespaces-join_commas x l a full = (
  refl,
  (
    add_namespaces [] (x ∷ l),
    nonempty (Bool-cases (same (join_commas (x ∷ l)) [])),
    add_namespaces-Distinct [] (x ∷ l) tt,
    (λ n.
        let i = add_namespaces_iff [] (x ∷ l) n in
        ((λ h. elim (i.0 h) [ inl f ↦ absurd f | inr f ↦ f ]), (λ h. i.1 (inr h)))),
  ),
)
  where
    nonempty :
        (same (join_commas (x ∷ l)) [] ≡ true) ⊎ (same (join_commas (x ∷ l)) [] ≡ false)
        → watched_namespaces (join_commas (x ∷ l)) ≡ some (add_namespaces [] (x ∷ l))
    nonempty (inl e) = absurd (full ((same_iff (join_commas (x ∷ l)) []).0 e))
    nonempty (inr e) = rw (watched_namespaces, e, split-join_commas x l a.0 a.1)
