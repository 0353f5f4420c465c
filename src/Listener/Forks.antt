-- ===== src/Listener/Forks.antt =====
-- A fork inside the window. `HandleHeaders` keeps the hashes before the fork point and drops the
-- fork point itself, so the hashes that stay are one place too near to the tip.
use identity_oracle.Prelude.{
  ℕ, suc, ◌+◌, ◌-◌, ◌%◌, ◌<◌, ◌≡◌, ◌≢◌, ◌∙◌, ap, false, some, List, [], ◌∷◌, ◌++◌, length, last?,
  get_elem?, take, drop, map, arith, length-append, length-map, length-take,
}
use identity_oracle.Prelude.Equality.{Comparable, ◌==◌, nat_comparable}
use identity_oracle.Errors.{ok}
use identity_oracle.Listener.{
  u32, add32, sub32, Header, Headers, Listener, reorg, find_hash, scan_headers, start_scan, finish,
  handle_batch, handle_headers, recent_sig_hash,
}
use identity_oracle.Listener.Chain.{IsChain, Tracks}
use identity_oracle.Listener.Heights.{add32-lt, Tracks-oldest}
use identity_oracle.Listener.Scanning.{scan_headers-chain, scan_header-fork}
use identity_oracle.Listener.Reports.{recent_sig_hash-full}
use identity_oracle.Listener.Batches.{finish-scanned}

module _ {Hash : Type 0} where
  -- The hashes before the fork, and those of the new branch.
  abbrev kept_hashes : List Hash → ℕ → Header Hash → List (Header Hash) → List Hash
  kept_hashes window i h hs = (take i window ++ h.block_hash ∷ []) ++ map (λ x. x.block_hash) hs

  length-kept_hashes :
      (window : List Hash) (i : ℕ) (h : Header Hash) (hs : List (Header Hash))
      → i < length window
      → length (kept_hashes window i h hs) ≡ i + 1 + length hs
  length-kept_hashes window i h hs b = omega (
    arith,
    length-append (take i window ++ h.block_hash ∷ []) (map (λ x. x.block_hash) hs),
    length-append (take i window) (h.block_hash ∷ []),
    length-map hs (λ x. x.block_hash),
    length-take i window,
  )

  kept_hashes-first :
      (window : List Hash) (i : ℕ) (h : Header Hash) (hs : List (Header Hash)) (oldest : Hash)
      → get_elem? window 0 ≡ some oldest
      → get_elem? (kept_hashes window (suc i) h hs) 0 ≡ some oldest
  kept_hashes-first [] i h hs oldest o = cc
  kept_hashes-first (k ∷ window) i h hs oldest o = o

module _ {Hash : Type 0} ⦃e : Comparable Hash⦄ where
  -- What a fork at index `i` and a chain behind it leave, if together they fill the window exactly.
  handle_batch-fork :
      (l : Listener Hash) (latest : Hash) (h : Header Hash) (hs : List (Header Hash)) (i : ℕ)
      → h.prev_block ≢ latest
      → find_hash h.prev_block l.hashes ≡ some i
      → i < length l.hashes
      → IsChain h.block_hash hs
      → i + 1 + length hs ≡ l.offset
      → handle_batch l (some latest) (h ∷ hs)
        ≡ ok (record l {
          hashes = kept_hashes l.hashes i h hs;
          height = add32 (add32 (sub32 l.height (length l.hashes - (i + 1))) 1) (length hs);
        })
  unfolding handle_batch scan_headers reorg
  handle_batch-fork l latest h hs i n f b c en =
      let start = start_scan l latest in
      let apart : (h.prev_block == latest) ≡ false =
        ground (arith, e.same_iff h.prev_block latest) in
      let kept = kept_hashes l.hashes i h hs in
      let whole : length kept ≡ l.offset = length-kept_hashes l.hashes i h hs b ∙ en in
      let none_trimmed : length kept - l.offset ≡ 0 = omega (arith, whole) in
      ap (λ s. finish l (scan_headers hs s)) (scan_header-fork h start i apart f)
      ∙ finish-scanned l _ _ (scan_headers-chain hs (reorg i h start) (add32-lt _ 1) c)
          (omega arith) (omega (arith, whole))
      ∙ ap
          (λ k. ok (record l {
            hashes = drop k kept;
            height = add32 (add32 (sub32 l.height (length l.hashes - (i + 1))) 1) (length hs);
          }))
          none_trimmed

  handle_headers-fork :
      (l : Listener Hash) (batch : Headers Hash) (latest : Hash) (h : Header Hash)
      (hs : List (Header Hash)) (i : ℕ)
      → last? l.hashes ≡ some latest
      → batch.headers ≡ h ∷ hs
      → h.prev_block ≢ latest
      → find_hash h.prev_block l.hashes ≡ some i
      → i < length l.hashes
      → IsChain h.block_hash hs
      → i + 1 + length hs ≡ l.offset
      → handle_headers l batch
        ≡ ok (record l {
          hashes = kept_hashes l.hashes i h hs;
          height = add32 (add32 (sub32 l.height (length l.hashes - (i + 1))) 1) (length hs);
        })
  unfolding handle_headers
  handle_headers-fork l batch latest h hs i la q n f b c en =
      ap (λ o. handle_batch l o batch.headers) la
      ∙ ap (handle_batch l (some latest)) q
      ∙ handle_batch-fork l latest h hs i n f b c en

-- The arithmetic of the two calls, on a window of `n` hashes whose oldest is at `oldest`.
off_by_one :
    (height n i more offset oldest : ℕ)
    → n ≡ offset
    → suc i + 1 + more ≡ offset
    → (oldest + (n - 1)) % u32 ≡ height % u32
    → add32 (sub32 (add32 (add32 (sub32 height (n - (suc i + 1))) 1) more) offset) 1
      ≡ (oldest + 1) % u32
unfolding add32 sub32
off_by_one height n i more offset oldest full refill t = omega arith

module _ {Hash : Type 0} ⦃e : Comparable Hash⦄ (true_height : Hash → ℕ) where
  -- From a full window at its true heights, a batch that forks off behind the hash at index `i`,
  -- neither the oldest nor the latest, and that refills the window exactly, is accepted, and
  -- `RecentSigHash` then reports the oldest hash one block above its true height.
  pub fork_reports_wrong_height :
      (l : Listener Hash) (batch : Headers Hash) (oldest latest : Hash) (h : Header Hash)
      (hs : List (Header Hash)) (i : ℕ)
      → Tracks true_height l.height l.hashes
      → get_elem? l.hashes 0 ≡ some oldest
      → length l.hashes ≡ l.offset
      → last? l.hashes ≡ some latest
      → batch.headers ≡ h ∷ hs
      → h.prev_block ≢ latest
      → find_hash h.prev_block l.hashes ≡ some (suc i)
      → suc i < length l.hashes
      → IsChain h.block_hash hs
      → suc i + 1 + length hs ≡ l.offset
      → (l' : Listener Hash) × (handle_headers l batch ≡ ok l')
        × (recent_sig_hash l' ≡ ok (oldest, (true_height oldest + 1) % u32))
  fork_reports_wrong_height l batch oldest latest h hs i t o full la q n f b c en =
      let height = add32 (add32 (sub32 l.height (length l.hashes - (suc i + 1))) 1) (length hs) in
      let l' : Listener Hash = record l {
        hashes = kept_hashes l.hashes (suc i) h hs;
        height = height;
      } in
      (
        l',
        handle_headers-fork l batch latest h hs (suc i) la q n f b c en,
        recent_sig_hash-full l' oldest (kept_hashes-first l.hashes i h hs oldest o)
              (length-kept_hashes l.hashes (suc i) h hs b ∙ en)
            ∙ ap (λ k. ok (oldest, k))
                (off_by_one l.height (length l.hashes) i (length hs) l.offset (true_height oldest)
                  full en (Tracks-oldest true_height l.height l.hashes oldest o t)),
      )
