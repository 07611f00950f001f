-- ===== src/EntryCodec.antt =====
-- entry_codec.hpp, entry_codec.cpp: one entry as one line of tab-separated text.
pub mod Hex
pub mod Clock
pub mod Line
pub mod Tests
use p2p_sync_engine.Prelude.{
  ℕ, zero, suc, ◌+◌, ◌-◌, ◌*◌, ◌%◌, ◌^◌, Bool, true, false, ◌&&◌, ◌||◌, Bytes, List, [], ◌∷◌, ◌++◌,
  Option, none, some, map, ltb, leb, ◌==◌, if◌then◌else◌, take, drop, replicate, codes, str_eq,
  get_or, length,
}
use mathlib.Core.Option
use p2p_sync_engine.Exceptions.{Result, ok, throw, invalid_argument, ◌>>=◌}
use p2p_sync_engine.Streams
use p2p_sync_engine.Streams.{getlines, join, is_space}
use p2p_sync_engine.Sha256
use p2p_sync_engine.Sha256.{Digest}
use p2p_sync_engine.VectorClock
use p2p_sync_engine.VectorClock.{VectorClock}
use p2p_sync_engine.FileEntry.{FileEntry}

-- The value of a hexadecimal digit of either case.
pub hex_value : ℕ → Option ℕ
hex_value c =
    if leb b'0' c && leb c b'9'
    then some (c - b'0')
    else if leb b'a' c && leb c b'f'
    then some (c - b'a' + 10)
    else if leb b'A' c && leb c b'F'
    then some (c - b'A' + 10)
    else none

-- `std::stoi` in base 16 on at most one byte behind a blank or a sign.
pub stoi_one : Option ℕ → Result ℕ
stoi_one none = throw invalid_argument
stoi_one (some v) = ok v

pub stoi_digits : Option ℕ → Option ℕ → Result ℕ
stoi_digits none lo = throw invalid_argument
stoi_digits (some hi) none = ok hi
stoi_digits (some hi) (some lo) = ok (hi * 16 + lo)

pub negate_byte : Result ℕ → Result ℕ
negate_byte (ok v) = ok ((256 - v) % 256)
negate_byte (throw e) = throw e

-- `static_cast<uint8_t>(std::stoi(text, nullptr, 16))` on a text of two bytes: a blank or a sign may
-- come first, a digit must, and what stands behind the digits is left unread ("0x" is 0).
pub stoi_byte : ℕ → ℕ → Result ℕ
stoi_byte a b =
    if is_space a || a == b'+'
    then stoi_one (hex_value b)
    else if a == b'-'
    then negate_byte (stoi_one (hex_value b))
    else stoi_digits (hex_value a) (hex_value b)

-- The loop over the bytes of the digest, `n` of them left; the others stay 0.
pub hex_bytes : ℕ → Bytes → Result Digest
hex_bytes zero hex = ok []
hex_bytes (suc n) [] = ok (replicate (suc n) 0)
hex_bytes (suc n) (a ∷ []) = ok (replicate (suc n) 0)
hex_bytes (suc n) (a ∷ (b ∷ hex)) = do v ← stoi_byte a b; d ← hex_bytes n hex; ok (v ∷ d)

unfoldable pub hex_to_digest : Bytes → Result Digest
unfolding hex_bytes stoi_byte stoi_one stoi_digits negate_byte hex_value is_space
hex_to_digest hex = hex_bytes 32 hex

-- "node:value"
pub counter_text : Bytes × ℕ → Bytes
counter_text (node, val) = node ++ (b':' ∷ Streams.print val)

unfoldable pub clock_to_wire : VectorClock → Bytes
unfolding counter_text
clock_to_wire c = join b',' (map counter_text c.counters)

-- `s.find(c)`, with `none` for `npos`.
pub find_first : ℕ → Bytes → Option ℕ
find_first c [] = none
find_first c (x ∷ s) =
    let later = Option.map suc (find_first c s) in if x == c then some 0 else later

-- The body of the loop of `clock_from_wire`: a text with no colon is passed over.
pub set_counter_at : VectorClock → Bytes → Option ℕ → Result VectorClock
set_counter_at c pair none = ok c
set_counter_at c pair (some colon) = do
  val ← Streams.stoull (drop (colon + 1) pair)
  ok (VectorClock.set c (take colon pair) val)

pub set_counter : VectorClock → Bytes → Result VectorClock
unfolding set_counter_at
set_counter c pair = set_counter_at c pair (find_first b':' pair)

pub set_counters : VectorClock → List Bytes → Result VectorClock
set_counters c [] = ok c
set_counters c (pair ∷ pairs) = do c' ← set_counter c pair; set_counters c' pairs

-- An empty text has no pairs, so that the early return needs no case.
unfoldable pub clock_from_wire : Bytes → Result VectorClock
unfolding find_first set_counter set_counters
clock_from_wire s = set_counters VectorClock.init (getlines b',' s)

unfoldable pub entry_to_line : FileEntry → Bytes
entry_to_line e =
    e.path
    ++ (b'\t'
        ∷ ((if e.deleted then codes "1" else codes "0")
            ++ (b'\t'
                ∷ (Streams.print e.size
                    ++ (b'\t'
                        ∷ (Sha256.to_hex e.merkle_root
                            ++ (b'\t'
                                ∷ (clock_to_wire e.clock
                                    ++ (b'\t'
                                        ∷ (e.last_writer
                                            ++ (b'\t'
                                                ∷ join b','
                                                    (map Sha256.to_hex e.chunk_hashes))))))))))))

-- `fields[2].empty() ? 0 : std::stoull(fields[2])`
pub size_of_field : Bytes → Result ℕ
size_of_field [] = ok 0
size_of_field (c ∷ s) = Streams.stoull (c ∷ s)

-- The digests of the last field; empty parts are passed over.
pub digests : List Bytes → Result (List Digest)
digests [] = ok []
digests ([] ∷ parts) = digests parts
digests ((c ∷ s) ∷ parts) = do d ← hex_to_digest (c ∷ s); ds ← digests parts; ok (d ∷ ds)

-- `fields[i]`, after the padding with empty fields up to seven.
pub field_at : List Bytes → ℕ → Bytes
field_at fields i = get_or fields i []

pub fields_to_entry : List Bytes → Result FileEntry
unfolding field_at
fields_to_entry fields = do
  size ← size_of_field (field_at fields 2)
  merkle_root ← hex_to_digest (field_at fields 3)
  clock ← clock_from_wire (field_at fields 4)
  chunk_hashes ← digests (getlines b',' (field_at fields 6))
  ok (record {
    path = field_at fields 0;
    chunk_hashes = chunk_hashes;
    merkle_root = merkle_root;
    clock = clock;
    last_writer = field_at fields 5;
    deleted = str_eq (field_at fields 1) (codes "1");
    size = size;
  })

unfoldable pub line_to_entry : Bytes → Result FileEntry
unfolding size_of_field digests fields_to_entry
line_to_entry line = fields_to_entry (getlines b'\t' line)
