-- ===== src/Connection/Room.antt =====
-- The command's memory in `handle_connection`: what was read, and room behind it.
use memuncached.Connection.{
  Cell, byte, garbage, Buffer, doubled, fresh_buffer, make_room, append_read,
}
use memuncached.Memory.{write, write-append}
use memuncached.Prelude.{
  ℕ, ◌+◌, ◌-◌, ◌*◌, ◌≤◌, ◌<◌, ◌≡◌, refl, sym, ap, ◌∙◌, inl, inr, Bool, true, List, [], ◌∷◌, ◌++◌,
  map, some, arith, length, length-append, length-map, length-replicate, length-take, length-drop,
  take, drop, take-append-drop, replicate, append_assoc, leb, Bool-cases,
}
use memuncached.Run.{ok, Returns}

-- The command's memory holds the bytes read, and has room behind them.
pub record Holds (b : Buffer) (got : List ℕ) : Type 0 where
  pub pad : List Cell
  pub cells : b.command ≡ map byte got ++ pad
  pub room : length pad ≡ b.command_free_len
  pub free : 0 < b.command_free_len
  pub width : b.command_len ≡ length got + b.command_free_len
  pub least : 10 ≤ b.command_len

pub fresh-Holds : Holds fresh_buffer []
unfolding fresh_buffer
fresh-Holds = record {
  pad = replicate 10 (byte 0);
  cells = refl;
  room = refl;
  free = omega arith;
  width = refl;
  least = omega arith;
}

pub map-append : (s t : List ℕ) → map byte (s ++ t) ≡ map byte s ++ map byte t
map-append [] t = refl
map-append (c ∷ s) t = ap (λ l. byte c ∷ l) (map-append s t)

-- Space for `n` bytes more: the free length no longer counts them.
pub record Room (b : Buffer) (got : List ℕ) (n : ℕ) : Type 0 where
  pub pad : List Cell
  pub cells : b.command ≡ map byte got ++ pad
  pub room : length pad ≡ n + b.command_free_len
  pub free : 0 < b.command_free_len
  pub width : b.command_len ≡ length got + n + b.command_free_len
  pub least : 10 ≤ b.command_len

module _ (grows : ℕ → Bool) (memory : (n : ℕ) → grows n ≡ true) where
  pub make_room-Room :
      (b : Buffer) (got : List ℕ) (n : ℕ)
      → Holds b got
      → n ≤ 10
      → (b' : Buffer) × (make_room grows b n ≡ some b') × Room b' got n
  unfolding make_room
  make_room-Room b got n h le = elim (Bool-cases (leb b.command_free_len n)) [
    | inl e ↦ (
      record {
        command = doubled b;
        command_len = b.command_len * 2;
        command_free_len = b.command_free_len + b.command_len - n;
      },
      rw (e, memory (b.command_len * 2)),
      record {
        pad = h.pad ++ replicate b.command_len garbage;
        cells = rw h.cells (append_assoc (map byte got) h.pad (replicate b.command_len garbage));
        room = omega (
          arith,
          length-append h.pad (replicate b.command_len garbage),
          length-replicate b.command_len garbage,
          h.room,
          h.least,
        );
        free = omega (arith, h.least, h.free);
        width = omega (arith, h.width, h.least);
        least = omega (arith, h.least);
      },
    )
    | inr e ↦ (
      record b { command_free_len = b.command_free_len - n },
      rw e,
      record {
        pad = h.pad;
        cells = h.cells;
        room = ground (arith, h.room);
        free = ground arith;
        width = ground (arith, h.width);
        least = h.least;
      },
    )
  ]

pub append_read-Holds :
    (b : Buffer) (got bs : List ℕ)
    → Room b got (length bs)
    → Returns (append_read b bs) λ b'. Holds b' (got ++ bs)
unfolding append_read
append_read-Holds b got bs h =
    let n = length bs in
    let start : b.command_len - b.command_free_len - n ≡ length (map byte got) =
      omega (arith, h.width, length-map got byte) in
    let taken : length (take n h.pad) ≡ length (map byte bs) =
      omega (arith, length-take n h.pad, length-map bs byte, h.room) in
    let cells = map byte got ++ (map byte bs ++ drop n h.pad) in
    let parts : b.command ≡ map byte got ++ (take n h.pad ++ drop n h.pad) =
      h.cells ∙ ap (λ l. map byte got ++ l) (sym (take-append-drop n h.pad)) in
    let written : write b.command (b.command_len - b.command_free_len - n) (map byte bs)
        ≡ ok cells =
      ap (λ c. write c (b.command_len - b.command_free_len - n) (map byte bs)) parts
      ∙ write-append (map byte bs) (map byte got) (take n h.pad) (drop n h.pad) _ start taken in
    (
      record b { command = cells },
      rw written,
      record {
        pad = drop n h.pad;
        cells =
            rw (map-append got bs) (sym (append_assoc (map byte got) (map byte bs) (drop n h.pad)));
        room = omega (arith, length-drop n h.pad, h.room);
        free = h.free;
        width = omega (arith, h.width, length-append got bs);
        least = h.least;
      },
    )
