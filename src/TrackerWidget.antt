-- ===== src/TrackerWidget.antt =====
-- cmd/trackerwidget/main.go: a list of items with a cursor, some of them selected. Keys come as the
-- text of `msg.String()`; the terminal and its event loop are outside.
pub mod Laws
use torrent_client.Common.{
  ℕ, ◌+◌, ◌-◌, ◌||◌, List, [], ◌∷◌, ◌++◌, ltb, ◌==◌, if◌then◌else◌, Bytes, codes, length,
}
use torrent_client.Bencode.Value.{eq_bytes}
use torrent_client.Cache.{contains, delete}

-- `selected` has the keys of the map.
pub record Model : Type 0 where
  pub choices : List Bytes
  pub cursor : ℕ
  pub selected : List ℕ

-- `initialModel`
abbrev pub initial_model : Model
initial_model = record {
  choices = codes "Buy carrots" ∷ codes "Buy celery" ∷ codes "Buy kohlrabi" ∷ [];
  cursor = 0;
  selected = [];
}

-- What a message from the terminal is.
pub data Msg : Type 0 where
  key : Bytes → Msg
  other : Msg

-- what `Update` wants of the runtime
pub data Cmd : Type 0 where
  nothing quit : Cmd

unfoldable pub toggle : Model → Model
unfolding contains delete
toggle m =
    if contains m.cursor m.selected
    then record m { selected = delete m.cursor m.selected }
    else record m { selected = m.cursor ∷ m.selected }

unfoldable pub press : Model → Bytes → Model × Cmd
unfolding eq_bytes toggle
press m k =
    if eq_bytes k (codes "ctrl+c") || eq_bytes k (codes "q")
    then (m, quit)
    else if eq_bytes k (codes "up") || eq_bytes k (codes "k")
    then (record m { cursor = m.cursor - 1 }, nothing)
    else if eq_bytes k (codes "down") || eq_bytes k (codes "j")
    then (
      record m { cursor = if ltb m.cursor (length m.choices - 1) then m.cursor + 1 else m.cursor },
      nothing,
    )
    else if eq_bytes k (codes "enter") || eq_bytes k (codes " ")
    then (toggle m, nothing)
    else (m, nothing)

-- `Update`
unfoldable pub update : Model → Msg → Model × Cmd
unfolding press
update m (key k) = press m k
update m other = (m, nothing)

-- row `i` of `View`
unfoldable pub row : Model → (i : ℕ) → Bytes → Bytes
unfolding contains
row m i choice =
    (if m.cursor == i then codes ">" else codes " ")
    ++ (codes " ["
        ++ ((if contains i m.selected then codes "x" else codes " ")
            ++ (codes "] " ++ (choice ++ (10 ∷ [])))))

-- the rows from `i` on
unfoldable pub rows : Model → (i : ℕ) → List Bytes → Bytes
unfolding row
rows m i [] = []
rows m i (c ∷ cs) = row m i c ++ rows m (i + 1) cs

-- `View`
unfoldable pub view : Model → Bytes
unfolding rows
view m =
    codes "What should we buy at the market?"
    ++ (10 ∷ 10 ∷ (rows m 0 m.choices ++ (10 ∷ (codes "Press q to quit." ++ (10 ∷ [])))))
