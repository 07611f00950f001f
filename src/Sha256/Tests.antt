-- ===== src/Sha256/Tests.antt =====
-- The theorems on the hash at a short message, and its digest.
use p2p_sync_engine.Prelude.{◌≡◌, ◌≢◌, arith, codes, length, ◌+◌, ◌*◌, ◌%◌}
use p2p_sync_engine.Sha256.{init, update, padded, digest_of, hash}
use p2p_sync_engine.Sha256.Streaming.{feed_all, update-append}
use p2p_sync_engine.Sha256.Padding.{
  padding, padded_message, length_field_counts_padding, hash-feed_all,
}

update-append_example : update (update init (codes "ab")) (codes "c") ≡ update init (codes "abc")
update-append_example = update-append init (codes "ab") (codes "c") (omega arith)

length_field_counts_padding_example :
    ((padded (update init (codes "abc"))).bit_len ≡ 3 * 8 + length (padding 3) * 8)
    × ((padded (update init (codes "abc"))).bit_len ≢ 3 * 8)
    × ((padded (update init (codes "abc"))).bit_len % 512 ≡ 448)
length_field_counts_padding_example = length_field_counts_padding (codes "abc") (omega arith)

hash-feed_all_example :
    (hash (codes "abc") ≡ digest_of (feed_all init (padded_message (codes "abc"))).h)
    × (length (padded_message (codes "abc")) % 64 ≡ 0)
hash-feed_all_example = hash-feed_all (codes "abc")
