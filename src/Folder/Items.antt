-- ===== src/Folder/Items.antt =====
-- The files of a shared folder, their events (`create_child_event` and `update_folder_progress` of
-- services/worker/app/database/repositories.py) and the ids of these.
use Prim.Native.String
use share_sentinel.Prelude.{
  ℕ, zero, suc, String, Bool, true, false, Option, none, some, List, [], ◌∷◌, Codes,
}
use share_sentinel.Worker.Events.{EventRow, Events, or_zero, new_event, get_event, update}

-- A driveItem that the enumeration returns. Its name and its id are taken to be there.
pub record ChildItem : Type 0 where
  pub id : String
  pub name : Codes
  pub ctag : String
  pub drive_id : String
  pub web_url : Codes

pub data Digit : Type 0 where
  d0 d1 d2 d3 d4 d5 d6 d7 d8 d9 : Digit

-- The decimal digits of a number, the last one first.
unfoldable pub successor : List Digit → List Digit
successor [] = d1 ∷ []
successor (d0 ∷ ds) = d1 ∷ ds
successor (d1 ∷ ds) = d2 ∷ ds
successor (d2 ∷ ds) = d3 ∷ ds
successor (d3 ∷ ds) = d4 ∷ ds
successor (d4 ∷ ds) = d5 ∷ ds
successor (d5 ∷ ds) = d6 ∷ ds
successor (d6 ∷ ds) = d7 ∷ ds
successor (d7 ∷ ds) = d8 ∷ ds
successor (d8 ∷ ds) = d9 ∷ ds
successor (d9 ∷ ds) = d0 ∷ successor ds

unfoldable pub digits : ℕ → List Digit
unfolding successor
digits zero = d0 ∷ []
digits (suc n) = successor (digits n)

abbrev pub digit_text : Digit → String
digit_text d0 = "0"
digit_text d1 = "1"
digit_text d2 = "2"
digit_text d3 = "3"
digit_text d4 = "4"
digit_text d5 = "5"
digit_text d6 = "6"
digit_text d7 = "7"
digit_text d8 = "8"
digit_text d9 = "9"

abbrev pub text_of : List Digit → String
text_of [] = ""
text_of (d ∷ ds) = String.◌++◌ (text_of ds) (digit_text d)

-- f"{event_id}:child:{idx}"
unfoldable pub child_event_id : String → ℕ → String
unfolding digits
child_event_id event_id idx = String.◌++◌ event_id (String.◌++◌ ":child:" (text_of (digits idx)))

abbrev pub new_child : ℕ → String → String → ChildItem → EventRow
new_child now parent k item = record (new_event now k) {
  parent_event_id = some parent;
  drive_id = some item.drive_id;
  item_id_graph = some item.id;
}

-- INSERT … ON CONFLICT (event_id) DO NOTHING RETURNING id. The Boolean says whether a row came back.
unfoldable pub create_child_event : ℕ → String → String → ChildItem → Events → Events × Bool
unfolding get_event
create_child_event now parent k item es = elim (get_event k es) [
  | none ↦ (new_child now parent k item ∷ es, true)
  | some e ↦ (es, false)
]

-- What `update_folder_progress` counts.
pub data Progress : Type 0 where
  total : ℕ → Progress
  processed flagged : Progress

abbrev one_more : Option ℕ → Option ℕ
one_more n = some (suc (or_zero n))

abbrev pub progressed : ℕ → Progress → EventRow → EventRow
progressed now (total n) e = record e { folder_total_children = some n; updated_at = now }
progressed now processed e = record e {
  folder_processed_children = one_more e.folder_processed_children;
  updated_at = now;
}
progressed now flagged e = record e {
  folder_flagged_children = one_more e.folder_flagged_children;
  updated_at = now;
}

unfoldable pub update_folder_progress : ℕ → String → Progress → Events → Events
unfolding update
update_folder_progress now k p = update (progressed now p) k
