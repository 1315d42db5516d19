-- ===== src/UpdateSlots.antt =====
-- The update slots (src/updateSlots.ts): copies of dist to go back to. A folder is what it holds, `Tree`
-- being what the build left in it; the root of the slots is a list of entries with their times of change.
pub mod Kept
use llamacli.Prelude.{
  ℕ, suc, ◌+◌, List, [], ◌∷◌, ◌++◌, Option, none, some, Bool, true, false, ◌&&◌, ◌||◌, not, ltb,
  leb, ◌==◌, length, take, drop, keep, any, map, if◌then◌else◌, Text, lit, text_eq, or_else,
  is_empty, is_some,
}
use llamacli.Compaction.SystemText.{index_of}

-- A file of a folder: its path and its content.
pub record File : Type 0 where
  pub path : Text
  pub content : Text

abbrev pub Tree : Type 0
Tree = List File

pub record Slot : Type 0 where
  pub name : Text
  pub mtime : ℕ
  pub is_directory : Bool
  pub files : Tree

abbrev pub version_slots : ℕ
version_slots = 3

-- `[A-Za-z0-9._-]`
unfoldable pub is_safe : ℕ → Bool
is_safe c =
    (leb 65 c && leb c 90)
    || (leb 97 c && leb c 122)
    || (leb 48 c && leb c 57)
    || (c == 46)
    || (c == 95)
    || (c == 45)

-- `replace(/[^A-Za-z0-9._-]+/g, "_")`; `within` tells that a run of others has begun.
unfoldable pub sanitize : Bool → Text → Text
sanitize within [] = []
sanitize within (c ∷ s) =
    let inside = sanitize true s in
    let outside = sanitize false s in
    if is_safe c then c ∷ outside else if within then inside else 95 ∷ inside

unfoldable pub slot_name : Option Text → Text → Text
slot_name version sha256 =
    let safe = take 40 (sanitize false (or_else version (lit "unknown"))) in
    lit "v-" ++ ((if is_empty safe then lit "unknown" else safe) ++ (lit "-" ++ take 12 sha256))

-- `s.includes(h)`
abbrev pub includes : Text → Text → Bool
includes h s = is_some (index_of h s)

abbrev pub is_kept_file : File → Bool
is_kept_file f = not (includes (lit ".self-update-tmp-") f.path)

unfoldable pub insert_newest : Slot → List Slot → List Slot
insert_newest s [] = s ∷ []
insert_newest s (t ∷ ts) =
    let rest = insert_newest s ts in if leb t.mtime s.mtime then s ∷ t ∷ ts else t ∷ rest

-- `listSlots`: newest first; slots of one time keep their order.
unfoldable pub list_slots : List Slot → List Slot
list_slots [] = []
list_slots (s ∷ ss) = insert_newest s (list_slots ss)

-- The slots that `pruneSlots` leaves, and those that it removes.
unfoldable pub prune_slots : List Slot → List Slot
prune_slots root = take version_slots (list_slots root)

unfoldable pub removed_slots : List Slot → List Slot
removed_slots root = drop version_slots (list_slots root)

unfoldable pub slot_at : Text → List Slot → Option Slot
slot_at name [] = none
slot_at name (s ∷ ss) = let rest = slot_at name ss in if text_eq s.name name then some s else rest

pub data Saved : Type 0 where
  -- a slot of that name is there and stays as it is
  already_there : Saved
  created : List Slot → Saved
  -- a file of that name is in the way of the copy
  copy_failed : Saved

unfoldable pub new_slot : Text → ℕ → Tree → Slot
new_slot name now dist = record {
  name = name;
  mtime = now;
  is_directory = true;
  files = keep is_kept_file dist;
}

unfoldable pub save_into : Option Slot → Slot → List Slot → Saved
save_into none s root = created (prune_slots (root ++ (s ∷ [])))
save_into (some old) s root = if old.is_directory then already_there else copy_failed

-- `saveSlot`; the hash is that of the options or of the record in dist.
unfoldable pub save_slot : Option Text → Text → ℕ → Tree → List Slot → Saved
save_slot version sha256 now dist root =
    let name = slot_name version sha256 in
    save_into (slot_at name root) (new_slot name now dist) root

pub data Restored : Type 0 where
  refused_missing refused_no_directory refused_no_entry : Restored
  restored : Tree → Restored

abbrev pub is_entry : File → Bool
is_entry f = text_eq f.path (lit "index.js")

unfoldable pub restore_from : Option Slot → Restored
restore_from none = refused_missing
restore_from (some s) =
    if not s.is_directory
    then refused_no_directory
    else if any is_entry s.files
    then restored s.files
    else refused_no_entry

unfoldable pub restore_slot : Text → List Slot → Restored
restore_slot name root = restore_from (slot_at name root)

-- The folder dist after `restoreSlot`: it is only emptied once every test has passed.
unfoldable pub dist_after : Restored → Tree → Tree
dist_after (restored files) dist = files
dist_after _ dist = dist
