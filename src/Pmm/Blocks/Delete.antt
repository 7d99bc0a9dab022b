-- ===== src/Pmm/Blocks/Delete.antt =====
-- Taking a block out of the lists (`list_delete` in kernel/src/memory/pmm.c).
use elysium_os.Base.{
  ℕ, zero, suc, ◌+◌, ◌-◌, ◌≡◌, ◌⊎◌, inl, inr, true, false, ◌&&◌, List, [], ◌∷◌, none, some,
  get_elem?, set, ◌==◌, arith, refl, ap, ap₂, sym, subst, ◌∙◌, Bool-cases, some-eq, ok,
}
use elysium_os.Pmm.{Ref}
use elysium_os.Pmm.Blocks.{remove_from, in_tail, list_delete, deleted, in_later, same_ref}
use elysium_os.Pmm.Blocks.Cover.{inside, cover_refs, Among, Among-cases, Listed}
use elysium_os.Pmm.Blocks.Moves.{Without}

Without-first : (ref r : Ref) (refs : List Ref) → r ≡ ref → Without ref (r ∷ refs) refs
Without-first ref r refs e = record {
  there = (0, ap some e);
  fewer = λ x (n, a). (suc n, a);
  counted = λ n r' i. ap (λ r. inside n r r' i + cover_refs n refs r' i) e;
}

Without-later :
    (ref r : Ref) (refs refs' : List Ref)
    → Without ref refs refs'
    → Without ref (r ∷ refs) (r ∷ refs')
Without-later ref r refs refs' w = record {
  there = (suc (w.there.0), w.there.1);
  fewer = λ x a. elim (Among-cases x r refs' a) [
    | inl e ↦ (0, ap some e)
    | inr a ↦ let (n, e) = w.fewer x a in (suc n, e)
  ];
  counted = λ n r' i. omega (arith, w.counted n r' i);
}

same_ref-eq : (ref r : Ref) → same_ref ref r ≡ true → r ≡ ref
same_ref-eq ref r h = ap₂ (λ r i. record { region = r; index = i }) (ground arith) (ground arith)

remove_from-cons :
    (ref r : Ref) (refs : List Ref)
    → same_ref ref r ≡ false
    → remove_from ref (r ∷ refs) ≡ in_tail r (remove_from ref refs)
unfolding remove_from
remove_from-cons ref r refs h = simp (h)

remove_from-same :
    (ref r : Ref) (refs : List Ref) → same_ref ref r ≡ true → remove_from ref (r ∷ refs) ≡ some refs
unfolding remove_from
remove_from-same ref r refs h = simp (h)

-- What is in a list can be removed from it.
remove_from-cases :
    (ref : Ref) (refs : List Ref)
    → ((remove_from ref refs ≡ none) × (Among ref refs → ⊥))
      ⊎ ((refs' : List Ref) × (remove_from ref refs ≡ some refs') × Without ref refs refs')
unfolding remove_from
remove_from-cases ref [] = inl (refl, λ (n, a). ground (arith, a))
remove_from-cases ref (r ∷ refs) = elim (Bool-cases (same_ref ref r)) [
  | inl same ↦
      inr
        (refs, remove_from-same ref r refs same, Without-first ref r refs (same_ref-eq ref r same))
  | inr other ↦ elim (remove_from-cases ref refs) [
    | inl (e, out) ↦ inl (
      remove_from-cons ref r refs other ∙ ap (in_tail r) e,
      λ a. elim (Among-cases ref r refs a) [
        | inl same ↦
            let one : (ref.region == ref.region) && (ref.index == ref.index) ≡ true =
              ground arith in
            let e : same_ref ref ref ≡ false = subst (λ r. same_ref ref r ≡ false) same other in
            ground (arith, one, e)
        | inr a ↦ out a
      ],
    )
    | inr (refs', e, w) ↦ inr (
      r ∷ refs',
      remove_from-cons ref r refs other ∙ ap (in_tail r) e,
      Without-later ref r refs refs' w,
    )
  ]
]

list_delete-cons :
    (ref : Ref) (refs : List Ref) (lists : List (List Ref))
    → remove_from ref refs ≡ none
    → list_delete ref (refs ∷ lists) ≡ in_later refs (list_delete ref lists)
unfolding list_delete
list_delete-cons ref refs lists h = ap (deleted refs lists (list_delete ref lists)) h

list_delete-here :
    (ref : Ref) (refs refs' : List Ref) (lists : List (List Ref))
    → remove_from ref refs ≡ some refs'
    → list_delete ref (refs ∷ lists) ≡ ok (refs' ∷ lists)
unfolding list_delete
list_delete-here ref refs refs' lists h = ap (deleted refs lists (list_delete ref lists)) h

later :
    (ref : Ref) (refs : List Ref) (lists : List (List Ref)) (o : ℕ)
    → (Among ref refs → ⊥)
    → Listed (refs ∷ lists) o ref
    → Listed lists (o - 1) ref
later ref refs lists zero out (refs', h, a) = absurd (out (subst (Among ref) (sym (some-eq h)) a))
later ref refs lists (suc o) out (refs', h, a) = (refs', ap (get_elem? lists) (omega arith) ∙ h, a)

-- Deletion of a block that is listed takes it out of one of the lists.
pub list_delete-Without :
    (ref : Ref) (lists : List (List Ref)) (o : ℕ)
    → Listed lists o ref
    → (k : ℕ) × (refs refs' : List Ref) × (list_delete ref lists ≡ ok (set lists k refs'))
      × (get_elem? lists k ≡ some refs)
      × Without ref refs refs'
list_delete-Without ref [] o (refs, h, a) = absurd (ground (arith, h))
list_delete-Without ref (refs ∷ lists) o l = elim (remove_from-cases ref refs) [
  | inr (refs', e, w) ↦ (0, refs, refs', list_delete-here ref refs refs' lists e, refl, w)
  | inl (e, out) ↦
      let (k, old, new, runs, h, w) =
        list_delete-Without ref lists (o - 1) (later ref refs lists o out l) in
      (suc k, old, new, list_delete-cons ref refs lists e ∙ ap (in_later refs) runs, h, w)
]
