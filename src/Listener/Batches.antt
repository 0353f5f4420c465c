-- ===== src/Listener/Batches.antt =====
-- What `HandleHeaders` does with a whole batch: a chain, a batch that links nowhere, a fork.
use identity_oracle.Prelude.Tests.{◌==◌ as nat_eq}
use identity_oracle.Prelude.{
  ℕ, ◌↔◌, inl, inr, Option, Option-cases, Bool-cases, ltb, none, some, ◌≢◌, ◌+◌, ◌-◌, ◌<◌, ◌≤◌, ◌≡◌,
  refl, ◌∙◌, ap, false, List, [], ◌∷◌, ◌++◌, length, last?, drop, map, All, arith, length-append,
  length-map,
}
use identity_oracle.Errors.{Text, Outcome, panic, Outcome-cases, ok}
use identity_oracle.Listener.{
  Scan, reinitialize, initialize_headers, clean_hashes, finish, u32, add32, Header, Headers,
  Listener, find_hash, scan_headers, start_scan, handle_batch, handle_headers,
}
use identity_oracle.Prelude.Equality.{Comparable, ◌==◌, nat_comparable}
use identity_oracle.Entity.Subset.{Among}
use identity_oracle.Listener.Chain.{IsChain}
use identity_oracle.Listener.Scanning.{scan_headers-chain, scan_header-unlinked}

module _ {Hash : Type 0} where
  -- A loop that linked something and left at least `offset` hashes ends with the last `offset`.
  finish-enough :
      (l : Listener Hash) (s : Scan Hash)
      → s.appended ≢ 0
      → l.offset ≤ length s.hashes
      → finish l s
        ≡ ok (record l { hashes = drop (length s.hashes - l.offset) s.hashes; height = s.height })
  unfolding finish clean_hashes
  finish-enough l s a b = ground arith

  -- What a batch leaves of the window, once it is known what the loop makes of it.
  pub finish-scanned :
      (l : Listener Hash) (s t : Scan Hash)
      → s ≡ t
      → t.appended ≢ 0
      → l.offset ≤ length t.hashes
      → finish l s
        ≡ ok (record l { hashes = drop (length t.hashes - l.offset) t.hashes; height = t.height })
  finish-scanned l s t q a b = ap (finish l) q ∙ finish-enough l t a b

module _ {Hash : Type 0} ⦃e : Comparable Hash⦄ where
  handle_batch-none :
      (l : Listener Hash) (hs : List (Header Hash)) → hs ≢ [] → handle_batch l none hs ≡ panic
  unfolding handle_batch
  handle_batch-none l [] n = absurd (n refl)
  handle_batch-none l (h ∷ hs) n = refl

  -- The node's replies are not panics.
  abbrev pub IsSafe : Option (ℕ → Outcome Text (Headers Hash)) → Type 0
  IsSafe spy_node =
      (node : ℕ → Outcome Text (Headers Hash)) → spy_node ≡ some node → (n : ℕ) → node n ≢ panic

  reinitialize-total : (l : Listener Hash) → IsSafe l.spy_node → reinitialize l ≢ panic
  unfolding reinitialize initialize_headers
  reinitialize-total l safe e = elim (Option-cases l.spy_node) [
    | inl q ↦ absurd (ground arith)
    | inr (node, q) ↦ elim (Outcome-cases (node l.offset)) [
      | inl (reply, r) ↦ absurd (ground arith)
      | inr (inl (x, r)) ↦ absurd (ground arith)
      | inr (inr r) ↦ absurd (safe node q l.offset r)
    ]
  ]

  clean_hashes-total : (l : Listener Hash) → IsSafe l.spy_node → clean_hashes l ≢ panic
  unfolding clean_hashes
  clean_hashes-total l safe e = elim (Bool-cases (ltb l.offset (length l.hashes))) [
    | inl y ↦ absurd (ground arith)
    | inr n ↦ elim (Bool-cases (ltb (length l.hashes) l.offset)) [
      | inl y ↦ reinitialize-total l safe (rw n at (rw y at e))
      | inr z ↦ absurd (ground arith)
    ]
  ]

  finish-total : (l : Listener Hash) (s : Scan Hash) → IsSafe l.spy_node → finish l s ≢ panic
  unfolding finish
  finish-total l s safe e = elim (Bool-cases (nat_eq s.appended 0)) [
    | inl y ↦
        reinitialize-total (record l { hashes = s.hashes; height = s.height }) safe (rw y at e)
    | inr n ↦
        clean_hashes-total (record l { hashes = s.hashes; height = s.height }) safe (rw n at e)
  ]

  handle_batch-total :
      (l : Listener Hash) (latest : Hash) (hs : List (Header Hash))
      → IsSafe l.spy_node
      → handle_batch l (some latest) hs ≢ panic
  unfolding handle_batch
  handle_batch-total l latest [] safe e = cc
  handle_batch-total l latest (h ∷ hs) safe e =
      finish-total l (scan_headers (h ∷ hs) (start_scan l latest)) safe e

  last?-none : (hs : List Hash) → last? hs ≡ none → hs ≡ []
  last?-none [] e = refl
  last?-none (h ∷ []) e = absurd (ground arith)
  last?-none (h ∷ k ∷ hs) e = let empty = last?-none (k ∷ hs) e in absurd (cc empty)

  -- With a node whose replies are not panics, `HandleHeaders` panics exactly if headers arrive while the
  -- window is empty: nothing that it does to a window with a hash can panic.
  pub handle_headers-empty_window :
      (l : Listener Hash) (batch : Headers Hash)
      → IsSafe l.spy_node
      → (handle_headers l batch ≡ panic) ↔ ((l.hashes ≡ []) × (batch.headers ≢ []))
  unfolding handle_headers
  handle_headers-empty_window l batch safe = (
    λ e. elim (Option-cases (last? l.hashes)) [
      | inl q ↦ (
        last?-none l.hashes q,
        λ z.
            let idle : handle_batch l (last? l.hashes) batch.headers ≡ ok l =
              ap (handle_batch l (last? l.hashes)) z in
            cc (idle, e),
      )
      | inr (latest, q) ↦ absurd (handle_batch-total l latest batch.headers safe (rw q at e))
    ],
    λ (z, n).
        ap (λ hs. handle_batch l (last? hs) batch.headers) z ∙ handle_batch-none l batch.headers n,
  )

  handle_batch-chain :
      (l : Listener Hash) (latest : Hash) (hs : List (Header Hash))
      → l.height < u32
      → hs ≢ []
      → IsChain latest hs
      → l.offset ≤ length l.hashes + length hs
      → handle_batch l (some latest) hs
        ≡ ok (record l {
          hashes =
              drop
                (length l.hashes + length hs - l.offset)
                (l.hashes ++ map (λ x. x.block_hash) hs);
          height = add32 l.height (length hs);
        })
  unfolding handle_batch
  handle_batch-chain l latest [] b ne c en = absurd (ne refl)
  handle_batch-chain l latest (h ∷ hs) b ne c en =
      let whole : length (l.hashes ++ map (λ x. x.block_hash) (h ∷ hs))
          ≡ length l.hashes + length (h ∷ hs) =
        length-append l.hashes (map (λ x. x.block_hash) (h ∷ hs))
        ∙ ap (λ n. length l.hashes + n) (length-map (h ∷ hs) (λ x. x.block_hash)) in
      finish-scanned l _ _ (scan_headers-chain (h ∷ hs) (start_scan l latest) b c) (omega arith)
        (omega (arith, whole))
      ∙ ap
          (λ n. ok (record l {
            hashes = drop (n - l.offset) (l.hashes ++ map (λ x. x.block_hash) (h ∷ hs));
            height = add32 l.height (length (h ∷ hs));
          }))
          whole

  -- A chain behind the window's last hash, long enough to fill the window, leaves the last `offset`
  -- hashes of the window and the chain together, and raises the height by the chain's length.
  pub handle_headers-chain :
      (l : Listener Hash) (batch : Headers Hash) (latest : Hash)
      → l.height < u32
      → last? l.hashes ≡ some latest
      → batch.headers ≢ []
      → IsChain latest batch.headers
      → l.offset ≤ length l.hashes + length batch.headers
      → handle_headers l batch
        ≡ ok (record l {
          hashes =
              drop
                (length l.hashes + length batch.headers - l.offset)
                (l.hashes ++ map (λ x. x.block_hash) batch.headers);
          height = add32 l.height (length batch.headers);
        })
  unfolding handle_headers
  handle_headers-chain l batch latest b la ne c en =
      ap (λ o. handle_batch l o batch.headers) la
      ∙ handle_batch-chain l latest batch.headers b ne c en

  scan_headers-unlinked :
      (hs : List (Header Hash)) (s : Scan Hash)
      → All (λ h. (h.prev_block ≢ s.latest) × (find_hash h.prev_block s.hashes ≡ none)) hs
      → scan_headers hs s ≡ s
  unfolding scan_headers
  scan_headers-unlinked [] s u = refl
  scan_headers-unlinked (h ∷ hs) s u =
      rw (scan_header-unlinked h s (ground (arith, e.same_iff h.prev_block s.latest, u.0.0)) u.0.1)
        (scan_headers-unlinked hs s u.1)

  find_hash-none : (prev : Hash) (hs : List Hash) → ¬ Among prev hs → find_hash prev hs ≡ none
  unfolding find_hash
  find_hash-none prev [] n = refl
  find_hash-none prev (h ∷ hs) n =
      let differs : (prev == h) ≡ false =
        ground (arith, e.same_iff prev h, λ (p : prev ≡ h). n (inl p)) in
      rw (differs, find_hash-none prev hs (λ m. n (inr m)))

  last-Among : (hs : List Hash) (latest : Hash) → last? hs ≡ some latest → Among latest hs
  last-Among [] latest p = cc
  last-Among (h ∷ []) latest p = inl (cc)
  last-Among (h ∷ k ∷ hs) latest p = inr (last-Among (k ∷ hs) latest p)

  finish-idle :
      (l : Listener Hash) (latest : Hash) → finish l (start_scan l latest) ≡ reinitialize l
  unfolding finish
  finish-idle l latest = refl

  handle_batch-unlinked :
      (l : Listener Hash) (latest : Hash) (hs : List (Header Hash))
      → last? l.hashes ≡ some latest
      → hs ≢ []
      → All (λ h. ¬ Among h.prev_block l.hashes) hs
      → handle_batch l (some latest) hs ≡ reinitialize l
  unfolding handle_batch
  handle_batch-unlinked l latest [] p ne u = absurd (ne refl)
  handle_batch-unlinked l latest (h ∷ hs) p ne u =
      ap (finish l) (scan_headers-unlinked (h ∷ hs) (start_scan l latest) (apart (h ∷ hs) u))
      ∙ finish-idle l latest
    where
      apart :
          (ks : List (Header Hash))
          → All (λ k. ¬ Among k.prev_block l.hashes) ks
          → All (λ k. (k.prev_block ≢ latest) × (find_hash k.prev_block l.hashes ≡ none)) ks
      apart [] v = tt
      apart (k ∷ ks) v = (
        (λ q. v.0 (rw q (last-Among l.hashes latest p)), find_hash-none k.prev_block l.hashes v.0),
        apart ks v.1,
      )

  -- A batch in which no header's previous block is in the window makes the listener ask the node for
  -- a new window, and does nothing else.
  pub handle_headers-unlinked :
      (l : Listener Hash) (batch : Headers Hash) (latest : Hash)
      → last? l.hashes ≡ some latest
      → batch.headers ≢ []
      → All (λ h. ¬ Among h.prev_block l.hashes) batch.headers
      → handle_headers l batch ≡ reinitialize l
  unfolding handle_headers
  handle_headers-unlinked l batch latest p ne u =
      ap (λ o. handle_batch l o batch.headers) p
      ∙ handle_batch-unlinked l latest batch.headers p ne u
