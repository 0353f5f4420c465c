-- ===== src/Listener/Scanning.antt =====
-- The loop of `HandleHeaders` over the headers of a batch.
use mathlib.Core.List.{append-nil, append_assoc}
use identity_oracle.Prelude.{
  ℕ, zero, suc, ◌+◌, ◌-◌, ◌<◌, ◌≡◌, refl, ◌∙◌, sym, ◌⊎◌, inl, inr, false, none, some, List, [], ◌∷◌,
  ◌++◌, length, last?, get_elem?, map, All, arith, last?-append_one, Bool-cases,
}
use identity_oracle.Prelude.Equality.{Comparable, ◌==◌, ==-refl}
use identity_oracle.Listener.{
  u32, add32, sub32, Header, Scan, extend, reorg, find_hash, scan_header, scan_headers,
}
use identity_oracle.Listener.Chain.{IsChain, tip, IsChild, Tracks}
use identity_oracle.Listener.Heights.{Tracks-extend, Tracks-refork}

Scan-eq :
    {Hash : Type 0} {s t : Scan Hash}
    → s.hashes ≡ t.hashes
    → s.height ≡ t.height
    → s.latest ≡ t.latest
    → s.appended ≡ t.appended
    → s ≡ t
Scan-eq a b c d = λ i. record { hashes = a i; height = b i; latest = c i; appended = d i }

module _ {Hash : Type 0} ⦃e : Comparable Hash⦄ where
  pub find_hash-some :
      (prev : Hash) (hs : List Hash) (i : ℕ)
      → find_hash prev hs ≡ some i
      → get_elem? hs i ≡ some prev
  unfolding find_hash
  find_hash-some prev [] i f = cc
  find_hash-some prev (h ∷ hs) zero f = ground (arith, e.same_iff prev h)
  find_hash-some prev (h ∷ hs) (suc i) f = find_hash-some prev hs i (ground arith)

  -- A header behind the latest one extends the window.
  pub scan_header-extend :
      (header : Header Hash) (s : Scan Hash)
      → header.prev_block ≡ s.latest
      → scan_header header s ≡ extend header s
  unfolding scan_header
  scan_header-extend header s p = rw (p, ==-refl s.latest)

  -- A header that links nowhere is passed over.
  pub scan_header-unlinked :
      (header : Header Hash) (s : Scan Hash)
      → (header.prev_block == s.latest) ≡ false
      → find_hash header.prev_block s.hashes ≡ none
      → scan_header header s ≡ s
  unfolding scan_header
  scan_header-unlinked header s n f = ground arith

  -- A header that links behind the hash at index `i` replaces what stands from `i` on.
  pub scan_header-fork :
      (header : Header Hash) (s : Scan Hash) (i : ℕ)
      → (header.prev_block == s.latest) ≡ false
      → find_hash header.prev_block s.hashes ≡ some i
      → scan_header header s ≡ reorg i header s
  unfolding scan_header
  scan_header-fork header s i n f = ground arith

  -- A chain behind the latest hash is appended whole.
  pub scan_headers-chain :
      (headers : List (Header Hash)) (s : Scan Hash)
      → s.height < u32
      → IsChain s.latest headers
      → scan_headers headers s ≡ record {
        hashes = s.hashes ++ map (λ x. x.block_hash) headers;
        height = add32 s.height (length headers);
        latest = tip s.latest headers;
        appended = s.appended + length headers;
      }
  unfolding scan_headers extend add32
  scan_headers-chain [] s b c = Scan-eq (sym (append-nil s.hashes)) (omega arith) refl (omega arith)
  scan_headers-chain (h ∷ headers) s b c = rw (scan_header-extend h s c.0) (
      scan_headers-chain headers (extend h s) (omega arith) c.1
      ∙ Scan-eq (append_assoc s.hashes (h.block_hash ∷ []) (map (λ x. x.block_hash) headers))
          (omega arith) refl (omega arith))

module _ {Hash : Type 0} ⦃e : Comparable Hash⦄ (true_height : Hash → ℕ) where
  -- The header links behind the latest hash, nowhere, or behind the oldest hash.
  abbrev pub IsStraight : Header Hash → Scan Hash → Type 0
  IsStraight h s =
      (h.prev_block ≡ s.latest)
      ⊎ ((find_hash h.prev_block s.hashes ≡ none) ⊎ (find_hash h.prev_block s.hashes ≡ some 0))

  -- The hashes are at their true heights, and `latest` is the last of them.
  pub record IsSound (s : Scan Hash) : Type 0 where
    pub tracked : Tracks true_height s.height s.hashes
    pub last : last? s.hashes ≡ some s.latest

  extend-IsSound :
      (h : Header Hash) (s : Scan Hash)
      → IsChild true_height h
      → h.prev_block ≡ s.latest
      → IsSound s
      → IsSound (extend h s)
  unfolding extend
  extend-IsSound h s c p v = record {
    tracked = Tracks-extend true_height s.height s.hashes h.block_hash v.last (rw p at c) v.tracked;
    last = last?-append_one s.hashes h.block_hash;
  }

  refork-Tracks :
      (h : Header Hash) (height : ℕ) (hs : List Hash)
      → IsChild true_height h
      → get_elem? hs 0 ≡ some h.prev_block
      → Tracks true_height height hs
      → Tracks true_height (add32 (sub32 height (length hs - 1)) 1) (h.block_hash ∷ [])
  refork-Tracks h height [] c g t = cc
  refork-Tracks h height (k ∷ hs) c g t =
      let same : h.prev_block ≡ k = cc in
      Tracks-refork true_height height (suc (length hs) - 1) k h.block_hash (rw same at c)
        (omega (arith, t.0))

  refork-IsSound :
      (h : Header Hash) (s : Scan Hash)
      → IsChild true_height h
      → find_hash h.prev_block s.hashes ≡ some 0
      → IsSound s
      → IsSound (reorg 0 h s)
  unfolding reorg
  refork-IsSound h s c f v = record {
    tracked =
        refork-Tracks h s.height s.hashes c (find_hash-some h.prev_block s.hashes 0 f) v.tracked;
    last = refl;
  }

  pub scan_header-IsSound :
      (h : Header Hash) (s : Scan Hash)
      → IsChild true_height h
      → IsStraight h s
      → IsSound s
      → IsSound (scan_header h s)
  scan_header-IsSound h s c st v = elim (Bool-cases (h.prev_block == s.latest)) [
    | inl y ↦
        let p = (e.same_iff h.prev_block s.latest).0 y in
        rw (scan_header-extend h s p) (extend-IsSound h s c p v)
    | inr n ↦ elim st [
      | inl p ↦ absurd (cc (n, (e.same_iff h.prev_block s.latest).1 p))
      | inr (inl f) ↦ rw (scan_header-unlinked h s n f) v
      | inr (inr f) ↦ rw (scan_header-fork h s 0 n f) (refork-IsSound h s c f v)
    ]
  ]

  -- Every header of the batch is straight when its turn comes.
  abbrev pub AreStraight : List (Header Hash) → Scan Hash → Type 0
  AreStraight [] s = Unit
  AreStraight (h ∷ headers) s = IsStraight h s × AreStraight headers (scan_header h s)

  pub scan_headers-IsSound :
      (headers : List (Header Hash)) (s : Scan Hash)
      → All (IsChild true_height) headers
      → AreStraight headers s
      → IsSound s
      → IsSound (scan_headers headers s)
  unfolding scan_headers
  scan_headers-IsSound [] s c st v = v
  scan_headers-IsSound (h ∷ headers) s c st v =
      scan_headers-IsSound headers (scan_header h s) c.1 st.1 (scan_header-IsSound h s c.0 st.0 v)
