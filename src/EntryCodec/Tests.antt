-- ===== src/EntryCodec/Tests.antt =====
-- The theorems on the wire format at concrete values.
use p2p_sync_engine.Prelude.{ℕ, ◌≡◌, refl, arith, replicate, ◌<◌, zero, suc, All}
use p2p_sync_engine.Exceptions.{ok}
use p2p_sync_engine.Sha256.Padding.{IsDigest}
use p2p_sync_engine.VectorClock.Merge.{IsValid}
use p2p_sync_engine.EntryCodec.{entry_to_line, line_to_entry}
use p2p_sync_engine.EntryCodec.Clock.{IsPlainId}
use p2p_sync_engine.EntryCodec.Line.{IsWireable, line_to_entry-entry_to_line}
use p2p_sync_engine.Streams.Lines.{Lacks}
use p2p_sync_engine.Fixtures.{node_a, path_f, clock_a, version_a}

ones : (n : ℕ) → All (λ b. b < 256) (replicate n 1)
ones zero = tt
ones (suc n) = (omega arith, ones n)

pub ones-IsDigest : IsDigest (replicate 32 1)
ones-IsDigest = record { size = refl; bytes = ones 32 }

clock_a-IsValid : IsValid clock_a
clock_a-IsValid = record { sorted = (tt, tt); fits = (omega arith, tt) }

pub node_a-IsPlainId : IsPlainId node_a
node_a-IsPlainId = record {
  no_tab = ((λ e. omega (arith, e)), tt);
  no_newline = ((λ e. omega (arith, e)), tt);
  no_comma = ((λ e. omega (arith, e)), tt);
  no_colon = ((λ e. omega (arith, e)), tt);
}

pub no_tab : Lacks b'\t' path_f
no_tab = (
  (λ e. omega (arith, e)),
  (
    (λ e. omega (arith, e)),
    ((λ e. omega (arith, e)), ((λ e. omega (arith, e)), ((λ e. omega (arith, e)), tt))),
  ),
)

pub no_newline : Lacks b'\n' path_f
no_newline = (
  (λ e. omega (arith, e)),
  (
    (λ e. omega (arith, e)),
    ((λ e. omega (arith, e)), ((λ e. omega (arith, e)), ((λ e. omega (arith, e)), tt))),
  ),
)

pub version_a-IsWireable : IsWireable version_a
version_a-IsWireable = record {
  path_no_tab = no_tab;
  path_no_newline = no_newline;
  writer_no_tab = node_a-IsPlainId.no_tab;
  writer_no_newline = node_a-IsPlainId.no_newline;
  valid_clock = clock_a-IsValid;
  plain_ids = (node_a-IsPlainId, tt);
  root_digest = ones-IsDigest;
  chunk_digests = (ones-IsDigest, tt);
  size_fits = omega arith;
}

line_to_entry-entry_to_line_example : line_to_entry (entry_to_line version_a) ≡ ok version_a
line_to_entry-entry_to_line_example = line_to_entry-entry_to_line version_a version_a-IsWireable
