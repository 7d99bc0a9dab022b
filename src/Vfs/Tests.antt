-- ===== src/Vfs/Tests.antt =====
-- Path lookup (kernel/src/fs/vfs.c) in two file systems: the second is mounted on "/a".
use elysium_os.Base.{
  Run, ok, panic, ok-injective, ltb, length, ◌≤◌, ◌+◌, ℕ, ◌≡◌, Bool, true, false, ◌&&◌, List, [],
  ◌∷◌, Option, none, some, ◌==◌, if◌then◌else◌, Result, done, failed, enoent, eexist, inl, inr,
  Bool-cases, refl, sym, ap, ◌∙◌, arith,
}
use elysium_os.Vfs.{Call, answer, refuse, FileSystems, create_file, cross, lookup, lookup_ext}
use elysium_os.Vfs.Exclusive.{lookup_ext-exclusive}
use elysium_os.Vfs.Descent.{descend_from}
use elysium_os.Vfs.Walk.{components, IsSettled}

-- "a" below the root is 1, and "b" below the root of the mounted file system, 2, is 3.
abbrev child : ℕ → List ℕ → Option ℕ
child node [] = none
child node (c ∷ cs) =
    if node == 0 && c == 97 then some 1 else if node == 2 && c == 98 then some 3 else none

abbrev looked_up : Option ℕ → Call ℕ (Option ℕ)
looked_up none = refuse enoent
looked_up (some node) = answer (some node)

-- The world counts the nodes that were created.
abbrev systems : FileSystems
systems = record {
  World = ℕ;
  Node = ℕ;
  heap_room = λ size w. ltb size 4096;
  first_root = λ w. some (answer 0);
  node_lookup = λ node name. looked_up (child node name);
  node_create = λ node name w. ok (done 9, w + 1);
  node_mkdir = λ node name w. ok (done 9, w + 1);
  mount_node = λ node w. if node == 2 then some 1 else none;
  mounted_root = λ node w. if node == 1 then some (answer 2) else none;
}

-- "/a//b"
lookup_run : lookup systems (47 ∷ 97 ∷ 47 ∷ 47 ∷ 98 ∷ []) none 0 ≡ ok (done 3, 0)
unfolding lookup
lookup_run = refl

-- "c" below "/a" is created, but not exclusively: the directory on the way exists.
create_run : lookup_ext systems (47 ∷ 97 ∷ 47 ∷ 99 ∷ []) none create_file false 0 ≡ ok (done 9, 1)
unfolding lookup_ext
create_run = refl

exclusive_run :
    lookup_ext systems (47 ∷ 97 ∷ 47 ∷ 99 ∷ []) none create_file true 0 ≡ ok (failed eexist, 0)
unfolding lookup_ext
exclusive_run = refl

-- A component for whose copy the heap has no room.
room_run : lookup (record systems { heap_room = λ size w. false }) (47 ∷ 97 ∷ []) none 0 ≡ panic
unfolding lookup
room_run = refl

components_run : components [] (97 ∷ 47 ∷ 47 ∷ 98 ∷ []) ≡ (97 ∷ [], false) ∷ (98 ∷ [], true) ∷ []
unfolding components
components_run = refl

abbrev mounted_on : Bool → Option (Call ℕ ℕ)
mounted_on b = if b then some (answer 2) else none

abbrev crossed : ℕ → ℕ → Option (Call ℕ ℕ) → Run (Result ℕ × ℕ)
crossed node w none = ok (done node, w)
crossed node w (some root) = root w

cross-crossed : (node w : ℕ) → cross systems node w ≡ crossed node w (mounted_on (node == 1))
unfolding cross
cross-crossed node w = refl

cross-other : (node w : ℕ) → (node == 1) ≡ false → cross systems node w ≡ ok (done node, w)
cross-other node w h = cross-crossed node w ∙ ap (λ b. crossed node w (mounted_on b)) h

done-eq : (a b : ℕ) (v w : ℕ) → Path (Run (Result ℕ × ℕ)) (ok (done a, v)) (ok (done b, w)) → a ≡ b
done-eq a b v w h = ground (arith, ap (λ r. r.0) (ok-injective h))

systems-IsSettled : IsSettled systems
systems-IsSettled node w node' w' h = elim (Bool-cases (node == 1)) [
  | inl mounted ↦
      let there : cross systems node w ≡ ok (done 2, w) =
        cross-crossed node w ∙ ap (λ b. crossed node w (mounted_on b)) mounted in
      let e : 2 ≡ node' = done-eq 2 node' w w' (sym there ∙ h) in
      cross-other node' w' (ground arith)
  | inr free ↦
      let e : node ≡ node' = done-eq node node' w w' (sym (cross-other node w free) ∙ h) in
      cross-other node' w' (ground arith)
]

-- "c" below the root of the mounted file system, with that as the working directory.
exclusive_here : lookup_ext systems (99 ∷ []) (some 2) create_file true 0 ≡ ok (done 9, 1)
unfolding lookup_ext
exclusive_here = refl

lookup_ext-exclusive_example : length (components [] (99 ∷ [])) ≤ 1
lookup_ext-exclusive_example =
    lookup_ext-exclusive systems create_file (99 ∷ []) (some 2) 0 9 1 systems-IsSettled
      exclusive_here

abbrev over : ℕ → ℕ
over node = if node == 1 then 2 else node

-- "/a//b"
abbrev mounted_path : List ℕ
mounted_path = 47 ∷ 97 ∷ 47 ∷ 47 ∷ 98 ∷ []

descend_from_run :
    Path (Result ℕ) (descend_from systems child over (some 0) (components [] mounted_path)) (done 3)
unfolding components
descend_from_run = refl
