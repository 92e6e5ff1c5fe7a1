-- ===== src/Session/Startup/Packing.antt =====
-- The bits of `initializeBitField` are packed as `hasPiece` reads them.
use torrent_client.Common.{
  ℕ, ◌+◌, ◌-◌, ◌*◌, ◌/◌, ◌%◌, ◌^◌, ◌≤◌, ◌<◌, ◌≡◌, refl, sym, ap, ◌∙◌, inl, inr, Bool, true, false,
  List, [], ◌∷◌, ◌++◌, append_assoc, append-nil, arith, ltb, ◌==◌, if◌then◌else◌, ltb→lt, lt→ltb,
  Bool-cases, Bytes, length, get_or, replicate, length-append, All, All-append, length-replicate,
}
use torrent_client.Bitfield.{has_piece}
use torrent_client.Session.Startup.{Tally, count_piece, close_tally}
use torrent_client.Bitfield.Bytewise.{IsByte}
use torrent_client.Session.Startup.Digits.{value, digit, push, pad, get_or-append, has_piece-append}

-- The tally of the pieces with the results `bs`: the full bytes, and the bits in `v`.
pub record Packs (bs : List Bool) (t : Tally) : Type 0 where
  pub front : List Bool
  pub part : List Bool
  pub cut : bs ≡ front ++ part
  pub counted : t.checked ≡ length front + length part
  pub whole : length front ≡ 8 * length t.bits
  pub few : length part < 8
  pub value_is : t.v ≡ value 0 part
  pub bytes : All IsByte t.bits
  pub reads : (j : ℕ) → j < length front → has_piece t.bits j ≡ get_or front j false

pub start-Packs : Packs [] (record { bits = []; v = 0; checked = 0 })
start-Packs = record {
  front = [];
  part = [];
  cut = refl;
  counted = refl;
  whole = refl;
  few = omega arith;
  value_is = refl;
  bytes = tt;
  reads = λ j h. absurd (omega arith);
}

-- eight bits more, after the full bytes
reads_more :
    (bits : Bytes) (front eight : List Bool)
    → length front ≡ 8 * length bits
    → length eight ≡ 8
    → ((j : ℕ) → j < length front → has_piece bits j ≡ get_or front j false)
    → (j : ℕ) → j < length (front ++ eight)
    → has_piece (bits ++ (value 0 eight ∷ [])) j ≡ get_or (front ++ eight) j false
reads_more bits front eight whole full reads j h =
    let e = length-append front eight in
    rw (has_piece-append bits (value 0 eight) j, get_or-append front eight j)
      (elim (Bool-cases (ltb j (length front))) [
        | inl old ↦
            let k : (j / 8 == length bits) ≡ false = ground arith in
            rw (old, k) (reads j (ltb→lt _ _ old))
        | inr new ↦
            let k : (j / 8 == length bits) ≡ true = ground arith in
            let r : j % 8 ≡ j - length front = ground arith in
            rw (new, k, r) (digit eight (j - length front) full (ground arith))
      ])

pub count_piece-Packs :
    (bs : List Bool) (t : Tally) (b : Bool) → Packs bs t → Packs (bs ++ (b ∷ [])) (count_piece t b)
unfolding count_piece
count_piece-Packs bs t b p =
    let e = length-append p.part (b ∷ []) in
    let next = (t.v * 2 % 256 + (if b then 1 else 0)) % 256 in
    let joined : bs ++ (b ∷ []) ≡ p.front ++ (p.part ++ (b ∷ [])) =
      ap (λ l. l ++ (b ∷ [])) (p.cut) ∙ append_assoc p.front p.part (b ∷ []) in
    let v' : (t.v * 2 % 256 + (if b then 1 else 0)) % 256 ≡ value 0 (p.part ++ (b ∷ [])) =
      rw (p.value_is) (push p.part b p.few) in
    elim (Bool-cases ((t.checked + 1) % 8 == 0)) [
      | inl full ↦
          let eight : length (p.part ++ (b ∷ [])) ≡ 8 =
            let c = p.counted in let w = p.whole in let f = p.few in ground arith in
          rw full (record {
            front = p.front ++ (p.part ++ (b ∷ []));
            part = [];
            cut = joined ∙ sym (append-nil _);
            counted = omega (arith, p.counted, length-append p.front (p.part ++ (b ∷ [])));
            whole = omega (
              arith,
              p.whole,
              eight,
              length-append p.front (p.part ++ (b ∷ [])),
              length-append t.bits (next ∷ []),
            );
            few = omega arith;
            value_is = refl;
            bytes = All-append IsByte t.bits (next ∷ []) p.bytes ((omega arith), tt);
            reads = rw v' (reads_more t.bits p.front (p.part ++ (b ∷ [])) p.whole eight p.reads);
          })
      | inr open_byte ↦ rw open_byte (record {
        front = p.front;
        part = p.part ++ (b ∷ []);
        cut = joined;
        counted = omega (arith, p.counted);
        whole = p.whole;
        few = let c = p.counted in let w = p.whole in let f = p.few in ground arith;
        value_is = v';
        bytes = p.bytes;
        reads = p.reads;
      })
    ]

-- Bit `j` of the bitfield is the result for piece `j`.
pub close_tally-Packs :
    (bs : List Bool) (t : Tally)
    → Packs bs t
    → (j : ℕ) → j < length bs
    → has_piece (close_tally t) j ≡ get_or bs j false
unfolding close_tally
close_tally-Packs bs t p j h =
    let n = length-append p.front p.part in
    let size : length bs ≡ length p.front + length p.part = ap length (p.cut) ∙ n in
    let c = p.counted in
    let w = p.whole in
    let f = p.few in
    let zeros = replicate (8 - length p.part) false in
    elim (Bool-cases (t.checked % 8 == 0)) [
      | inl even ↦
          let inside : ltb j (length p.front) ≡ true = ground arith in
          rw (even, p.cut, get_or-append p.front p.part j, inside) (p.reads j (ground arith))
      | inr odd ↦
          let r : t.checked % 8 ≡ length p.part = omega arith in
          let eight : length (p.part ++ zeros) ≡ 8 =
            omega (arith, length-append p.part zeros, length-replicate (8 - length p.part) false) in
          let inside : ltb j (length bs) ≡ true = lt→ltb _ _ h in
          let joined : p.front ++ (p.part ++ zeros) ≡ bs ++ zeros =
            sym (append_assoc p.front p.part zeros) ∙ ap (λ l. l ++ zeros) (sym (p.cut)) in
          let more =
            reads_more t.bits p.front (p.part ++ zeros) w eight p.reads j
              (omega (arith, length-append p.front (p.part ++ zeros))) in
          rw (odd, r, p.value_is, pad p.part f)
            (more ∙ rw (joined, get_or-append bs zeros j, inside))
    ]

pub close_tally-IsByte : (bs : List Bool) (t : Tally) → Packs bs t → All IsByte (close_tally t)
unfolding close_tally
close_tally-IsByte bs t p = elim (Bool-cases (t.checked % 8 == 0)) [
  | inl even ↦ rw even p.bytes
  | inr odd ↦ rw odd (
      All-append IsByte t.bits ((t.v * 2 ^ (8 - t.checked % 8) % 256) ∷ []) p.bytes
        ((omega arith), tt))
]

-- There is a bit for each piece.
pub length-close_tally :
    (bs : List Bool) (t : Tally) → Packs bs t → length bs ≤ 8 * length (close_tally t)
unfolding close_tally
length-close_tally bs t p =
    let size : length bs ≡ length p.front + length p.part =
      ap length (p.cut) ∙ length-append p.front p.part in
    let c = p.counted in
    let w = p.whole in
    let f = p.few in
    elim (Bool-cases (t.checked % 8 == 0)) [
      | inl even ↦ rw even (ground arith)
      | inr odd ↦
          rw odd (omega (arith, length-append t.bits ((t.v * 2 ^ (8 - t.checked % 8) % 256) ∷ [])))
    ]
