-- ===== src/UpdateSlots/Kept.antt =====
-- What the slots keep.
use llamacli.Prelude.{
  ℕ, zero, suc, ◌≤◌, ◌<◌, ◌≡◌, refl, ap, sym, subst, min, ◌∙◌, List, [], ◌∷◌, ◌++◌, Option, none,
  true, leb, All, any, all, keep, take, drop, length, length-take, if_intro, arith, Text,
  text_eq_refl, take-append-drop, All-drop,
}
use mathlib.Core.List.{Perm}
use mathlib.Core.List.Perm
use llamacli.UpdateSlots.{
  Tree, Slot, is_kept_file, insert_newest, list_slots, prune_slots, removed_slots, slot_at, created,
  new_slot, save_into, save_slot, slot_name, is_entry, restore_from, restore_slot, dist_after,
}

abbrev pub IsOlder : ℕ → Slot → Type 0
IsOlder n s = s.mtime < n

first_newest :
    (s : Slot) (root : List Slot)
    → All (IsOlder s.mtime) root
    → (rest : List Slot) × (list_slots (root ++ (s ∷ [])) ≡ s ∷ rest)
unfolding list_slots insert_newest
first_newest s [] _ = ([], refl)
first_newest s (t ∷ root) (h, hs) =
    let (rest, e) = first_newest s root hs in
    (
      insert_newest t rest,
      ap (insert_newest t) e
          ∙ if_intro (λ (l : List Slot). l ≡ s ∷ insert_newest t rest) (leb s.mtime t.mtime)
              (λ f. absurd (ground arith)) (λ _. refl),
    )

keep-all : (dist : Tree) → all is_kept_file dist ≡ true → keep is_kept_file dist ≡ dist
keep-all [] h = refl
keep-all (f ∷ dist) h =
    if_intro (λ (l : Tree). l ≡ f ∷ dist) (is_kept_file f)
      (λ _. ap (◌∷◌ f) (keep-all dist (ground arith))) (λ e. absurd (ground arith))

restore_whole :
    (name : Text) (now : ℕ) (dist broken : Tree) (rest : List Slot)
    → keep is_kept_file dist ≡ dist
    → any is_entry dist ≡ true
    → dist_after (restore_from (slot_at name (new_slot name now dist ∷ rest))) broken ≡ dist
unfolding slot_at restore_from dist_after new_slot
restore_whole name now dist broken rest whole entry =
    rw (text_eq_refl name) (rw whole (rw entry refl))

-- A build that is saved into a new slot comes back whole from that slot: where no slot has its name yet,
-- the slots there are older, and dist has its entry file and no left-over download, restoring the slot
-- makes dist what it was, whatever dist has become since.
pub restore_slot-save_slot :
    (version : Option Text) (sha256 : Text) (now : ℕ) (dist broken : Tree) (root : List Slot)
    → slot_at (slot_name version sha256) root ≡ none
    → All (IsOlder now) root
    → all is_kept_file dist ≡ true
    → any is_entry dist ≡ true
    → (root' : List Slot) × (save_slot version sha256 now dist root ≡ created root')
      × (dist_after (restore_slot (slot_name version sha256) root') broken ≡ dist)
unfolding save_slot save_into prune_slots restore_slot slot_at new_slot
restore_slot-save_slot version sha256 now dist broken root fresh older whole entry =
    let name = slot_name version sha256 in
    let s : Slot = new_slot name now dist in
    let (rest, first) = first_newest s root older in
    (
      prune_slots (root ++ (s ∷ [])),
      ap (λ o. save_into o s root) fresh,
      ap (λ l. dist_after (restore_from (slot_at name (take 3 l))) broken) first
          ∙ restore_whole name now dist broken (take 2 rest) (keep-all dist whole) entry,
    )

-- The newest first.
abbrev pub IsSorted : List Slot → Type 0
IsSorted [] = Unit
IsSorted (s ∷ ss) = All (λ t. t.mtime ≤ s.mtime) ss × IsSorted ss

All-insert_newest :
    (n : ℕ) (s : Slot) (ss : List Slot)
    → s.mtime ≤ n
    → All (λ t. t.mtime ≤ n) ss
    → All (λ t. t.mtime ≤ n) (insert_newest s ss)
unfolding insert_newest
All-insert_newest n s [] h _ = (h, tt)
All-insert_newest n s (t ∷ ts) h (k, ks) =
    if_intro (All (λ (u : Slot). u.mtime ≤ n)) (leb t.mtime s.mtime) (λ _. (h, (k, ks)))
      (λ _. (k, All-insert_newest n s ts h ks))

All-le_trans :
    (m n : ℕ) (ss : List Slot) → m ≤ n → All (λ t. t.mtime ≤ m) ss → All (λ t. t.mtime ≤ n) ss
All-le_trans m n [] h _ = tt
All-le_trans m n (s ∷ ss) h (k, ks) = (omega arith, All-le_trans m n ss h ks)

insert_newest-IsSorted : (s : Slot) (ss : List Slot) → IsSorted ss → IsSorted (insert_newest s ss)
unfolding insert_newest
insert_newest-IsSorted s [] _ = (tt, tt)
insert_newest-IsSorted s (t ∷ ts) (h, hs) =
    if_intro IsSorted (leb t.mtime s.mtime)
      (λ e. ((ground arith, All-le_trans t.mtime s.mtime ts (ground arith) h), (h, hs)))
      (λ e. (All-insert_newest t.mtime s ts (ground arith) h, insert_newest-IsSorted s ts hs))

list_slots-IsSorted : (root : List Slot) → IsSorted (list_slots root)
unfolding list_slots
list_slots-IsSorted [] = tt
list_slots-IsSorted (s ∷ root) =
    insert_newest-IsSorted s (list_slots root) (list_slots-IsSorted root)

-- Each of the first is at least as new as each of the others.
abbrev pub IsNewer : List Slot → List Slot → Type 0
IsNewer kept removed = All (λ k. All (λ r. r.mtime ≤ k.mtime) removed) kept

split-IsNewer : (n : ℕ) (ss : List Slot) → IsSorted ss → IsNewer (take n ss) (drop n ss)
split-IsNewer zero ss h = tt
split-IsNewer (suc n) [] h = tt
split-IsNewer (suc n) (s ∷ ss) (h, hs) =
    (All-drop (λ (t : Slot). t.mtime ≤ s.mtime) n ss h, split-IsNewer n ss hs)

insert_newest-Perm : (s : Slot) (ss : List Slot) → Perm (insert_newest s ss) (s ∷ ss)
unfolding insert_newest
insert_newest-Perm s [] = Perm.refl (s ∷ [])
insert_newest-Perm s (t ∷ ts) =
    if_intro (λ (l : List Slot). Perm l (s ∷ t ∷ ts)) (leb t.mtime s.mtime)
      (λ _. Perm.refl (s ∷ t ∷ ts))
      (λ _. Perm.trans (Perm.cons t (insert_newest-Perm s ts)) (Perm.swap s t ts))

list_slots-Perm : (root : List Slot) → Perm (list_slots root) root
unfolding list_slots
list_slots-Perm [] = Perm.refl []
list_slots-Perm (s ∷ root) =
    Perm.trans (insert_newest-Perm s (list_slots root)) (Perm.cons s (list_slots-Perm root))

length-insert_newest : (s : Slot) (ss : List Slot) → length (insert_newest s ss) ≡ suc (length ss)
unfolding insert_newest
length-insert_newest s [] = refl
length-insert_newest s (t ∷ ts) =
    if_intro (λ (l : List Slot). length l ≡ suc (suc (length ts))) (leb t.mtime s.mtime) (λ _. refl)
      (λ _. omega (arith, length-insert_newest s ts))

length-list_slots : (root : List Slot) → length (list_slots root) ≡ length root
unfolding list_slots
length-list_slots [] = refl
length-list_slots (s ∷ root) =
    length-insert_newest s (list_slots root) ∙ omega (arith, length-list_slots root)

-- Pruning leaves three slots, or all where there are fewer; the slots that stay and those that it removes
-- are together the slots of the root, each as often as before; and no slot that is removed is newer than
-- one that stays.
pub prune_slots-IsNewer :
    (root : List Slot)
    → (length (prune_slots root) ≡ min 3 (length root))
      × Perm (prune_slots root ++ removed_slots root) root
      × IsNewer (prune_slots root) (removed_slots root)
unfolding prune_slots removed_slots
prune_slots-IsNewer root = (
  omega (arith, length-take 3 (list_slots root), length-list_slots root),
  subst (λ l. Perm l root) (sym (take-append-drop 3 (list_slots root))) (list_slots-Perm root),
  split-IsNewer 3 (list_slots root) (list_slots-IsSorted root),
)
