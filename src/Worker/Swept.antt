-- ===== src/Worker/Swept.antt =====
-- Lists of rows and jobs under the sweeps at the start of a worker.
use share_sentinel.Prelude.{
  ℕ, ◌≡◌, refl, String, Bool, List, [], ◌∷◌, ◌&&◌, ◌||◌, arith, any, filter, elem, ◌==◌, ap, ◌∙◌,
}
use share_sentinel.Worker.Events.{EventRow}
use share_sentinel.Worker.Startup.{reclaim, insert_row, sort_rows}

pub any-insert_row :
    (key : EventRow → ℕ) (p : EventRow → Bool) (r : EventRow) (xs : List EventRow)
    → any p (insert_row key r xs) ≡ (p r || any p xs)
unfolding insert_row
any-insert_row key p r [] = refl
any-insert_row key p r (x ∷ xs) = ground (arith, any-insert_row key p r xs)

pub any-sort_rows :
    (key : EventRow → ℕ) (p : EventRow → Bool) (xs : List EventRow)
    → any p (sort_rows key xs) ≡ any p xs
unfolding sort_rows
any-sort_rows key p [] = refl
any-sort_rows key p (x ∷ xs) =
    any-insert_row key p x (sort_rows key xs) ∙ ap (λ b. p x || b) (any-sort_rows key p xs)

pub any-filter :
    (p q : EventRow → Bool) (xs : List EventRow) → any p (filter q xs) ≡ any (λ r. p r && q r) xs
any-filter p q [] = refl
any-filter p q (x ∷ xs) = ground (arith, any-filter p q xs)

pub elem-reclaim :
    (k : String) (in_flight queue : List String)
    → elem k (reclaim in_flight queue) ≡ (elem k in_flight || elem k queue)
unfolding reclaim elem
elem-reclaim k [] queue = refl
elem-reclaim k (x ∷ xs) queue = ground (arith, elem-reclaim k xs (x ∷ queue))

abbrev pub is_event : String → EventRow → Bool
is_event k r = r.event_id == k
