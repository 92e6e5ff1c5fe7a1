-- ===== src/Bencode/Value.antt =====
-- What an `interface{}` of pkg/bencode holds: the dynamic types of `Encode`'s type switch
-- (pkg/bencode/bencode_encoder.go), and every other type as `other`.
-- A Go map is an association list with one entry for each key, in no special order.
use torrent_client.Common.{
  [], ◌∷◌, Option, none, some, Bool, true, false, ◌&&◌, ◌==◌, if◌then◌else◌, Bytes,
}
use torrent_client.Common.Int.{ℤ}

mutual
  pub data Value : Type 0 where
    int : ℤ → Value
    bytes : Bytes → Value
    str : Bytes → Value
    list : Items → Value
    dict : Fields → Value
    other : Value

  pub data Items : Type 0 where
    nil : Items
    cons : Value → Items → Items

  pub data Fields : Type 0 where
    end : Fields
    field : Bytes → Value → Fields → Fields

-- `==` of Go strings
unfoldable pub eq_bytes : Bytes → Bytes → Bool
eq_bytes [] [] = true
eq_bytes (x ∷ xs) (y ∷ ys) = (x == y) && eq_bytes xs ys
eq_bytes _ _ = false

-- `rv[k] = v`
unfoldable pub put : Bytes → Value → Fields → Fields
unfolding eq_bytes
put k v end = field k v end
put k v (field j w fs) = if eq_bytes j k then field j v fs else field j w (put k v fs)

-- `v, ok := m[k]`
unfoldable pub lookup : Bytes → Fields → Option Value
unfolding eq_bytes
lookup k end = none
lookup k (field j v fs) = if eq_bytes j k then some v else lookup k fs

-- `append(rv, v)`
unfoldable pub push : Items → Value → Items
push nil v = cons v nil
push (cons w is) v = cons w (push is v)
