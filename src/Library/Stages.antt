-- ===== src/Library/Stages.antt =====
-- The stages in which `memuncached_recv` is while a reply arrives: in the first line, in the second, in
-- the body; what a read and a growth of the buffer keep of them.
use memuncached.Connection.{Cell, byte, garbage}
use memuncached.Library.Lines.{cells, cells-append}
use memuncached.Library.Reply.{
  Reply, reply_code, status_text, header_text, body_text, status_cut, header_cut, type_of,
}
use memuncached.Library.{Response, Realloc, in_place, Scan, store_read, grow}
use memuncached.Memory.{write, write-append}
use memuncached.Network.{Event, sent}
use memuncached.Prelude.Int.{pos}
use memuncached.Prelude.{
  ℕ, ◌+◌, ◌-◌, ◌*◌, ◌^◌, ◌<◌, ◌≤◌, ◌≡◌, refl, sym, ap, ◌∙◌, true, false, if_true, if_false,
  Bool-cases, inl, inr, List, [], ◌∷◌, ◌++◌, map, some, arith, length, length-append, length-map,
  length-replicate, length-take, length-drop, take, drop, take-append-drop, replicate, append_assoc,
  ltb,
}
use memuncached.Run.{ok, bind_ok, Returns}

-- The buffer holds the lines that are done, then the bytes `got`, then room. `line_start` and the
-- pointers are good; `rest` is to come, its last part `late` not from this peer.
pub record Held (a got rest out late : List ℕ) (s : Scan) : Type 0 where
  pub pad : List Cell
  pub cells : s.client.buffer ≡ cells (a ++ got) pad
  pub width : length a + length got + length pad ≡ s.client.buffer_size
  pub least : 0 < s.client.buffer_size
  pub total : s.total_size ≡ length a + length got
  pub start : s.line_start ≡ length a
  pub fresh : s.stale ≡ false
  pub input : rest ≡ sent s.client.input ++ late
  pub written : s.client.out ≡ out

-- The code and the description of a response.
pub record Status (r : Reply) (response : Response) : Type 0 where
  pub code : response.code ≡ pos (reply_code r)
  pub description : response.description ≡ some 4

-- What a response says of the body.
pub record Body (r : Reply) (response : Response) : Type 0 where
  pub size : response.body_size ≡ length r.body
  pub place : response.body ≡ some (length (status_cut r ++ header_cut r))
  pub type : response.body_type ≡ type_of r.type

-- The stage that the locals and the response are in when the unread part begins with `got`, and `all`
-- is all of it. `counted` is the number of bytes of the body.
pub data Phase (r : Reply) (more a got all : List ℕ) (counted line payload : ℕ)
    (response : Response) : Type 0 where
  in_status :
      a ≡ []
      → line ≡ 0
      → payload ≡ 0
      → response.body_type ≡ 0
      → all ≡ status_text r ++ 10 ∷ (header_text r ++ 10 ∷ (body_text r ++ more))
      → Phase r more a got all counted line payload response
  in_header :
      a ≡ status_cut r
      → line ≡ 1
      → payload ≡ 0
      → response.body_type ≡ 0
      → Status r response
      → all ≡ header_text r ++ 10 ∷ (body_text r ++ more)
      → Phase r more a got all counted line payload response
  in_body :
      a ≡ status_cut r ++ header_cut r
      → line ≡ 2
      → counted ≡ length got
      → Status r response
      → Body r response
      → all ≡ body_text r ++ more
      → Phase r more a got all counted line payload response

pub record Stage (r : Reply) (more out late : List ℕ) (counted : ℕ) (rest : List ℕ) (s : Scan)
    : Type 0 where
  pub a : List ℕ
  pub got : List ℕ
  pub held : Held a got rest out late s
  pub phase :
      Phase r more a got (got ++ rest) counted s.line_number s.payload_read_size s.client.response

-- Bytes move from those to come to those that were read.
read_on :
    {r : Reply} {more a got all got' all' : List ℕ} {n n' line payload : ℕ} {response : Response}
    → Phase r more a got all n line payload response
    → all' ≡ all
    → (n ≡ length got → n' ≡ length got')
    → Phase r more a got' all' n' line payload response
read_on (in_status ea el ep et e) same count = in_status ea el ep et (same ∙ e)
read_on (in_header ea el ep et st e) same count = in_header ea el ep et st (same ∙ e)
read_on (in_body ea el en st b e) same count = in_body ea el (count en) st b (same ∙ e)

stored :
    (a got bs : List ℕ) (pad : List Cell) (i : ℕ)
    → i ≡ length a + length got
    → length bs ≤ length pad
    → write (cells (a ++ got) pad) i (map byte bs)
      ≡ ok (cells (a ++ (got ++ bs)) (drop (length bs) pad))
stored a got bs pad i e le =
    let n = length bs in
    let parts : cells (a ++ got) pad ≡ map byte (a ++ got) ++ (take n pad ++ drop n pad) =
      ap (λ l. map byte (a ++ got) ++ l) (sym (take-append-drop n pad)) in
    let start : i ≡ length (map byte (a ++ got)) =
      omega (arith, length-map (a ++ got) byte, length-append a got) in
    let taken : length (take n pad) ≡ length (map byte bs) =
      omega (arith, length-take n pad, length-map bs byte) in
    ap (λ c. write c i (map byte bs)) parts
    ∙ write-append (map byte bs) (map byte (a ++ got)) (take n pad) (drop n pad) i start taken
    ∙ ap ok (
        sym (cells-append (a ++ got) bs (drop n pad))
        ∙ ap (λ l. cells l (drop n pad)) (append_assoc a got bs))

module _ {r : Reply} {more out late rest : List ℕ} where
  -- A read of `bs` that leaves `events` to come.
  pub store_read-Stage :
      (s : Scan) (bs rest' : List ℕ) (events : List Event)
      → Stage r more out late s.payload_read_size rest s
      → rest' ≡ sent events ++ late
      → rest ≡ bs ++ rest'
      → length bs ≤ s.client.buffer_size - s.total_size
      → Returns
          (store_read (record s { client = record s.client { input = events } }) bs)
          λ s'. Stage r more out late (s'.payload_read_size + s'.read_size) rest' s'
  unfolding store_read
  store_read-Stage s bs rest' events st come split le =
      let h = st.held in
      let n = length bs in
      let fits : n ≤ length h.pad = omega (arith, h.width, h.total) in
      let longer = length-append st.got bs in
      (
        record s {
          client = record s.client {
            input = events;
            buffer = cells (st.a ++ (st.got ++ bs)) (drop n h.pad);
          };
          read_size = n;
          total_size = s.total_size + n;
        },
        bind_ok _ (
            ap (λ c. write c s.total_size (map byte bs)) h.cells
            ∙ stored st.a st.got bs h.pad s.total_size h.total fits),
        record {
          a = st.a;
          got = st.got ++ bs;
          held = record {
            pad = drop n h.pad;
            cells = refl;
            width = omega (arith, longer, length-drop n h.pad, h.width);
            least = h.least;
            total = omega (arith, longer, h.total);
            start = h.start;
            fresh = h.fresh;
            input = come;
            written = h.written;
          };
          phase =
              read_on st.phase (append_assoc st.got bs rest' ∙ ap (λ l. st.got ++ l) (sym split))
                (λ e. omega (arith, longer));
        },
      )

  -- The growth when there is memory in place for every size.
  pub grow-Stage :
      (realloc : ℕ → Realloc)
      → ((n : ℕ) → realloc n ≡ in_place)
      → (s : Scan) → Stage r more out late s.payload_read_size rest s
      → s.total_size < 2 ^ 30
      → (s' : Scan) × (grow realloc s ≡ ok (true, s'))
        × Stage r more out late s'.payload_read_size rest s'
        × (s'.total_size < s'.client.buffer_size)
        × (s'.total_size ≡ s.total_size)
  unfolding grow
  grow-Stage realloc memory s st small =
      elim (Bool-cases (ltb s.client.buffer_size (s.total_size + 1))) [
        | inl full ↦
            let h = st.held in
            let size = s.client.buffer_size * 2 in
            let added = size - length s.client.buffer in
            let whole : s.total_size ≡ s.client.buffer_size = ground (arith, h.width, h.total) in
            let c = record s.client {
              buffer_size = size;
              buffer = s.client.buffer ++ replicate added garbage;
            } in
            let fits : ltb size (2 ^ 31) ≡ true = ground (arith, whole) in
            let longer = length-append h.pad (replicate added garbage) in
            let wide = ap length h.cells in
            let before = length-append (map byte (st.a ++ st.got)) h.pad in
            let read = length-map (st.a ++ st.got) byte in
            (
              record s { client = c },
              if_true _ _ full ∙ if_true _ _ fits ∙ rw (memory size) refl,
              record {
                a = st.a;
                got = st.got;
                held = record {
                  pad = h.pad ++ replicate added garbage;
                  cells = rw h.cells (append_assoc (map byte (st.a ++ st.got)) h.pad _);
                  width = omega (
                    arith,
                    longer,
                    length-replicate added garbage,
                    wide,
                    before,
                    read,
                    length-append st.a st.got,
                    h.width,
                  );
                  least = omega (arith, h.least);
                  total = h.total;
                  start = h.start;
                  fresh = h.fresh;
                  input = h.input;
                  written = h.written;
                };
                phase = st.phase;
              },
              omega (arith, whole, h.least),
              refl,
            )
        | inr room ↦ (s, if_false _ _ room, st, ground arith, refl)
      ]
