-- ===== src/TrackerWidget/Laws.antt =====
-- The list of items over its messages (cmd/trackerwidget/main.go).
use torrent_client.Common.{ℕ, ◌<◌, ◌||◌, List, [], ◌∷◌, arith, ◌==◌, codes, length, All, if_rule}
use torrent_client.Bencode.Value.{eq_bytes}
use torrent_client.Cache.{contains, delete}
use torrent_client.TrackerWidget.{Model, Msg, key, other, Cmd, toggle, press, update}

-- The cursor is on an item, and the items that are selected are there.
pub record IsValid (m : Model) : Type 0 where
  pub on_item : m.cursor < length m.choices
  pub there : All (λ i. i < length m.choices) m.selected

All-delete : (P : ℕ → Type 0) (k : ℕ) (l : List ℕ) → All P l → All P (delete k l)
unfolding delete
All-delete P k [] h = tt
All-delete P k (j ∷ l) (h, t) =
    if_rule (All P) (j == k) l (j ∷ delete k l) (λ _. t) (λ _. (h, All-delete P k l t))

toggle-IsValid : (m : Model) → IsValid m → IsValid (toggle m)
unfolding toggle
toggle-IsValid m v =
    if_rule IsValid (contains m.cursor m.selected) _ _
      (λ _. record { on_item = v.on_item; there = All-delete _ m.cursor m.selected v.there })
      (λ _. record { on_item = v.on_item; there = (v.on_item, v.there) })

-- Every message keeps the cursor on an item, and the selected items within the list.
pub update-IsValid : (m : Model) (msg : Msg) → IsValid m → IsValid ((update m msg).0)
unfolding update press
update-IsValid m other v = v
update-IsValid m (key k) v =
    let P = λ (r : Model × Cmd). IsValid (r.0) in
    if_rule P (eq_bytes k (codes "ctrl+c") || eq_bytes k (codes "q")) _ _ (λ _. v)
      (λ _.
        if_rule P (eq_bytes k (codes "up") || eq_bytes k (codes "k")) _ _
          (λ _. record { on_item = omega (arith, v.on_item); there = v.there })
          (λ _.
            if_rule P (eq_bytes k (codes "down") || eq_bytes k (codes "j")) _ _
              (λ _. record { on_item = let o = v.on_item in ground arith; there = v.there })
              (λ _.
                if_rule P (eq_bytes k (codes "enter") || eq_bytes k (codes " ")) _ _
                  (λ _. toggle-IsValid m v) (λ _. v))))
