-- ===== src/Evidence/Index/Sets.antt =====
-- What is a member of the document sets of app/consumer/service.py after each operation on them.
use give_exit.Prelude.{
  ◌≡◌, refl, inl, inr, String, not, ◌||◌, ◌&&◌, List, [], ◌∷◌, ◌++◌, any, str_eq, arith, Bool-cases,
  eq_iff,
}
use give_exit.Store.Defs.{Payload, CaseRecord}
use give_exit.Evidence.Index.{
  member, discard, add, discard_all, delete_of_all, delete_indexed_documents,
}

pub member-append :
    (d : String) (xs ys : List String) → member d (xs ++ ys) ≡ (member d xs || member d ys)
member-append d [] ys = refl
member-append d (x ∷ xs) ys = ground (arith, member-append d xs ys)

pub member-discard :
    (d e : String) (ds : List String) → member d (discard e ds) ≡ (not (str_eq e d) && member d ds)
unfolding discard
member-discard d e [] = ground arith
member-discard d e (x ∷ xs) =
    ground (arith, member-discard d e xs, eq_iff x e, eq_iff x d, eq_iff e d)

pub member-add :
    (d e : String) (ds : List String) → member d (add e ds) ≡ (str_eq e d || member d ds)
unfolding add
member-add d e ds = elim (Bool-cases (member e ds)) [
  | inl t ↦ elim (Bool-cases (str_eq e d)) [
    | inl q ↦ rw t (rw q (rw (← (eq_iff e d).0 q) t))
    | inr q ↦ rw t (rw q refl)
  ]
  | inr t ↦ rw t (ground (arith, member-append d ds (e ∷ [])))
]

pub member-discard_all :
    (d : String) (es ds : List String)
    → member d (discard_all es ds) ≡ (not (member d es) && member d ds)
unfolding discard_all
member-discard_all d [] ds = refl
member-discard_all d (e ∷ es) ds =
    ground (arith, member-discard_all d es (discard e ds), member-discard d e ds)

module _ {p : Payload} where
  pub member-delete_of_all :
      (d : String) (rs : List (CaseRecord p)) (ds : List String)
      → member d (delete_of_all rs ds)
        ≡ (not (any (λ r. member d r.indexed_document_ids) rs) && member d ds)
  unfolding delete_of_all delete_indexed_documents
  member-delete_of_all d [] ds = refl
  member-delete_of_all d (r ∷ rs) ds = ground (
    arith,
    member-delete_of_all d rs (discard_all r.indexed_document_ids ds),
    member-discard_all d r.indexed_document_ids ds,
  )
