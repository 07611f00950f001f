-- ===== src/EntryCodec/Line.antt =====
-- An entry and its line.
use p2p_sync_engine.Prelude.{
  ℕ, ◌<◌, ◌^◌, Bool, true, false, Bytes, List, [], ◌∷◌, ◌++◌, ◌≡◌, ◌≢◌, refl, sym, ap, subst, ◌∙◌,
  arith, All, All-append, map, codes, str_eq, if◌then◌else◌, get_or,
}
use p2p_sync_engine.Exceptions.{ok, ◌>>=◌}
use p2p_sync_engine.Streams
use p2p_sync_engine.Streams.{getlines, join}
use p2p_sync_engine.Streams.Lines.{Lacks, LastFull, getlines-join, getlines-part, getlines-last}
use p2p_sync_engine.Streams.Decimal.{stoull-print, print-IsDigit, print-ne-nil}
use p2p_sync_engine.Sha256
use p2p_sync_engine.Sha256.{Digest}
use p2p_sync_engine.Sha256.Padding.{IsDigest}
use p2p_sync_engine.VectorClock.Merge.{IsValid as IsValidClock}
use p2p_sync_engine.FileEntry.{FileEntry}
use p2p_sync_engine.EntryCodec.{
  clock_to_wire, entry_to_line, line_to_entry, hex_to_digest, size_of_field, digests,
  fields_to_entry,
}
use p2p_sync_engine.EntryCodec.Hex.{hex_to_digest-to_hex, to_hex-Lacks, to_hex-ne-nil}
use p2p_sync_engine.EntryCodec.Clock.{
  HasPlainIds, clock_from_wire-clock_to_wire, clock_to_wire-Lacks, digits_lack, join-Lacks,
}

-- An entry that the line format can carry: no tab and no newline in its texts, plain node ids in a
-- valid clock, digests of 32 bytes, and a 64-bit size.
pub record IsWireable (e : FileEntry) : Type 0 where
  pub path_no_tab : Lacks b'\t' e.path
  pub path_no_newline : Lacks b'\n' e.path
  pub writer_no_tab : Lacks b'\t' e.last_writer
  pub writer_no_newline : Lacks b'\n' e.last_writer
  pub valid_clock : IsValidClock e.clock
  pub plain_ids : HasPlainIds e.clock
  pub root_digest : IsDigest e.merkle_root
  pub chunk_digests : All IsDigest e.chunk_hashes
  pub size_fits : e.size < 2 ^ 64

abbrev flag : Bool → Bytes
flag deleted = if deleted then codes "1" else codes "0"

abbrev hashes_text : FileEntry → Bytes
hashes_text e = join b',' (map Sha256.to_hex e.chunk_hashes)

abbrev head_fields : FileEntry → List Bytes
head_fields e =
    e.path
    ∷ (flag e.deleted
        ∷ (Streams.print e.size
            ∷ (Sha256.to_hex e.merkle_root ∷ (clock_to_wire e.clock ∷ (e.last_writer ∷ [])))))

-- The parts, each with its delimiter, and a last text behind them.
delimited : List Bytes → Bytes → Bytes
delimited [] last = last
delimited (part ∷ parts) last = part ++ (b'\t' ∷ delimited parts last)

getlines-delimited :
    (parts : List Bytes) (last : Bytes)
    → All (Lacks b'\t') parts
    → getlines b'\t' (delimited parts last) ≡ parts ++ getlines b'\t' last
unfolding delimited
getlines-delimited [] last h = refl
getlines-delimited (part ∷ parts) last h =
    getlines-part b'\t' part (delimited parts last) h.0
    ∙ ap (◌∷◌ part) (getlines-delimited parts last h.1)

entry_to_line-delimited :
    (e : FileEntry) → entry_to_line e ≡ delimited (head_fields e) (hashes_text e)
unfolding entry_to_line delimited
entry_to_line-delimited e = refl

hexes-Lacks :
    (c : ℕ) (hs : List Digest) → c < b'0' → All IsDigest hs → All (Lacks c) (map Sha256.to_hex hs)
hexes-Lacks c [] lt h = tt
hexes-Lacks c (d ∷ hs) lt h = (to_hex-Lacks c d lt h.0.bytes, hexes-Lacks c hs lt h.1)

hexes-LastFull : (hs : List Digest) → All IsDigest hs → LastFull (map Sha256.to_hex hs)
hexes-LastFull [] h = tt
hexes-LastFull (d ∷ []) h = to_hex-ne-nil d h.0
hexes-LastFull (d ∷ (d' ∷ hs)) h = hexes-LastFull (d' ∷ hs) h.1

-- The list of digests is read back, whatever separates them but a digit.
pub digests-join :
    (d : ℕ) (hs : List Digest)
    → d < b'0'
    → All IsDigest hs
    → digests (getlines d (join d (map Sha256.to_hex hs))) ≡ ok hs
digests-join d hs lt h =
    ap digests
      (getlines-join d (map Sha256.to_hex hs) (hexes-Lacks d hs lt h) (hexes-LastFull hs h))
    ∙ each hs h
  where
    first :
        (s : Bytes) (parts : List Bytes)
        → s ≢ []
        → digests (s ∷ parts) ≡ (hex_to_digest s >>= (λ d. digests parts >>= (λ ds. ok (d ∷ ds))))
    first [] parts n = absurd (n refl)
    first (c ∷ s) parts n = unfold digests in refl

    each : (hs : List Digest) → All IsDigest hs → digests (map Sha256.to_hex hs) ≡ ok hs
    each [] h = unfold digests in refl
    each (d ∷ hs) h =
        first (Sha256.to_hex d) (map Sha256.to_hex hs) (to_hex-ne-nil d h.0)
        ∙ (rw (hex_to_digest-to_hex d h.0, each hs h.1) refl)

size_of_field-print : (n : ℕ) → n < 2 ^ 64 → size_of_field (Streams.print n) ≡ ok n
size_of_field-print n lt = full (Streams.print n) (print-ne-nil n) ∙ stoull-print n lt
  where
    full : (s : Bytes) → s ≢ [] → size_of_field s ≡ Streams.stoull s
    full [] h = absurd (h refl)
    full (c ∷ s) h = unfold size_of_field in refl

str_eq-flag : (deleted : Bool) → str_eq (flag deleted) (codes "1") ≡ deleted
unfolding str_eq
str_eq-flag true = refl
str_eq-flag false = refl

last_field : (last : Bytes) → Lacks b'\t' last → get_or (getlines b'\t' last) 0 [] ≡ last
last_field [] h = unfold getlines in refl
last_field (c ∷ s) h = ap (λ (l : List Bytes). get_or l 0 []) (getlines-last b'\t' c s h)

head_fields-Lacks : (e : FileEntry) → IsWireable e → All (Lacks b'\t') (head_fields e)
head_fields-Lacks e w = (
  w.path_no_tab,
  (
    flag_plain e.deleted,
    (
      digits_lack b'\t' (Streams.print e.size) (omega arith) (print-IsDigit e.size),
      (
        to_hex-Lacks b'\t' e.merkle_root (omega arith) w.root_digest.bytes,
        ((clock_to_wire-Lacks e.clock w.plain_ids).0, (w.writer_no_tab, tt)),
      ),
    ),
  ),
)
  where
    flag_plain : (deleted : Bool) → Lacks b'\t' (flag deleted)
    flag_plain true = (omega arith, tt)
    flag_plain false = (omega arith, tt)

hashes_text-Lacks : (e : FileEntry) (d : ℕ) → d < b',' → IsWireable e → Lacks d (hashes_text e)
hashes_text-Lacks e d lt w =
    join-Lacks d b',' (map Sha256.to_hex e.chunk_hashes) (λ q. omega (arith, q))
      (hexes-Lacks d e.chunk_hashes (omega arith) w.chunk_digests)

fields_to_entry-fields :
    (e : FileEntry) (tail : List Bytes)
    → IsWireable e
    → get_or tail 0 [] ≡ hashes_text e
    → fields_to_entry (head_fields e ++ tail) ≡ ok e
unfolding fields_to_entry
fields_to_entry-fields e tail w h =
    rw
      (
        size_of_field-print e.size w.size_fits,
        hex_to_digest-to_hex e.merkle_root w.root_digest,
        clock_from_wire-clock_to_wire e.clock w.valid_clock w.plain_ids,
        h,
        digests-join b',' e.chunk_hashes (omega arith) w.chunk_digests,
        str_eq-flag e.deleted,
      )
      refl

line_to_entry_lem : (s : Bytes) → line_to_entry s ≡ fields_to_entry (getlines b'\t' s)
unfolding line_to_entry
line_to_entry_lem s = refl

-- An entry that the format can carry is read back from its line.
pub line_to_entry-entry_to_line :
    (e : FileEntry) → IsWireable e → line_to_entry (entry_to_line e) ≡ ok e
line_to_entry-entry_to_line e w =
    line_to_entry_lem (entry_to_line e)
    ∙ ap fields_to_entry (
        ap (getlines b'\t') (entry_to_line-delimited e)
        ∙ getlines-delimited (head_fields e) (hashes_text e) (head_fields-Lacks e w))
    ∙ fields_to_entry-fields e (getlines b'\t' (hashes_text e)) w
        (last_field (hashes_text e) (hashes_text-Lacks e b'\t' (omega arith) w))

delimited-Lacks_newline :
    (parts : List Bytes) (last : Bytes)
    → All (Lacks b'\n') parts
    → Lacks b'\n' last
    → Lacks b'\n' (delimited parts last)
unfolding delimited
delimited-Lacks_newline [] last h l = l
delimited-Lacks_newline (part ∷ parts) last h l =
    All-append (λ c. c ≢ b'\n') part (b'\t' ∷ delimited parts last) h.0
      ((λ e. omega (arith, e)), delimited-Lacks_newline parts last h.1 l)

delimited-ne-nil :
    (part : Bytes) (parts : List Bytes) (last : Bytes) → delimited (part ∷ parts) last ≢ []
unfolding delimited
delimited-ne-nil [] parts last e = cc
delimited-ne-nil (c ∷ part) parts last e = cc

-- The line of such an entry holds no newline, and is not empty.
pub entry_to_line-Lacks :
    (e : FileEntry) → IsWireable e → Lacks b'\n' (entry_to_line e) × (entry_to_line e ≢ [])
entry_to_line-Lacks e w = (
  subst (Lacks b'\n') (sym (entry_to_line-delimited e)) (
      delimited-Lacks_newline (head_fields e) (hashes_text e)
        (
          w.path_no_newline,
          (
            flag_plain e.deleted,
            (
              digits_lack b'\n' (Streams.print e.size) (omega arith) (print-IsDigit e.size),
              (
                to_hex-Lacks b'\n' e.merkle_root (omega arith) w.root_digest.bytes,
                ((clock_to_wire-Lacks e.clock w.plain_ids).1, (w.writer_no_newline, tt)),
              ),
            ),
          ),
        )
        (hashes_text-Lacks e b'\n' (omega arith) w)),
  λ q. delimited-ne-nil _ _ _ (sym (entry_to_line-delimited e) ∙ q),
)
  where
    flag_plain : (deleted : Bool) → Lacks b'\n' (flag deleted)
    flag_plain true = (omega arith, tt)
    flag_plain false = (omega arith, tt)
