-- ===== src/Listener/Reports.antt =====
-- What `RecentSigHash` reports after `HandleHeaders`.
use identity_oracle.Prelude.{
  ℕ, ◌-◌, ◌%◌, ◌≡◌, inl, inr, Option, some, List, [], ◌∷◌, length, last?, get_elem?, drop, All, ltb,
  arith, Bool-cases, Option-cases,
}
use identity_oracle.Prelude.Equality.{Comparable, ◌==◌, nat_comparable}
use identity_oracle.Errors.{Outcome, ok, Text, Outcome-cases}
use identity_oracle.Listener.{
  u32, add32, sub32, Header, Headers, Listener, Scan, scan_headers, start_scan, load_headers,
  initialize_headers, reinitialize, clean_hashes, finish, handle_batch, handle_headers,
  recent_sig_hash,
}
use identity_oracle.Listener.Chain.{IsChild, Tracks, IsAligned}
use identity_oracle.Listener.Heights.{Tracks-drop, Tracks-first, IsAligned-Tracks}
use identity_oracle.Listener.Scanning.{AreStraight, scan_headers-IsSound}

module _ {Hash : Type 0} where
  -- A full window answers with its first hash.
  pub recent_sig_hash-full :
      (l : Listener Hash) (h : Hash)
      → get_elem? l.hashes 0 ≡ some h
      → length l.hashes ≡ l.offset
      → recent_sig_hash l ≡ ok (h, add32 (sub32 l.height l.offset) 1)
  unfolding recent_sig_hash
  recent_sig_hash-full l h f n = ground arith

module _ {Hash : Type 0} (true_height : Hash → ℕ) where
  -- Every reply of the node is a run of blocks at the heights that it names.
  pub record IsHonest (node : Option (ℕ → Outcome Text (Headers Hash))) : Type 0 where
    pub aligned :
        (get_headers : ℕ → Outcome Text (Headers Hash)) (n : ℕ) (reply : Headers Hash)
        → node ≡ some get_headers
        → get_headers n ≡ ok reply
        → IsAligned true_height reply.start_height reply.headers

  abbrev pub IsTracked : Listener Hash → Type 0
  IsTracked l = Tracks true_height l.height l.hashes

  pub load_headers-IsTracked :
      (l : Listener Hash) (start : ℕ) (headers : List (Header Hash))
      → IsAligned true_height start headers
      → IsTracked l
      → IsTracked (load_headers l start headers)
  unfolding load_headers add32 sub32
  load_headers-IsTracked l start [] a t = t
  load_headers-IsTracked l start (h ∷ hs) a t =
      IsAligned-Tracks true_height start (sub32 (add32 start (length (h ∷ hs))) 1) (h ∷ hs)
        (omega arith) a

  initialize_headers-IsTracked :
      (l l' : Listener Hash)
      → IsHonest l.spy_node
      → IsTracked l
      → initialize_headers l ≡ ok l'
      → IsTracked l'
  unfolding initialize_headers
  initialize_headers-IsTracked l l' n t r = elim (Option-cases l.spy_node) [
    | inl z ↦ absurd (ground arith)
    | inr (g, y) ↦ elim (Outcome-cases (g l.offset)) [
      | inl (reply, q) ↦
          let same : load_headers l reply.start_height reply.headers ≡ l' = ground arith in
          rw (← same) (
            load_headers-IsTracked l reply.start_height reply.headers
              (n.aligned g l.offset reply y q) t)
      | inr bad ↦ absurd (ground (arith))
    ]
  ]

  reinitialize-IsTracked :
      (l l' : Listener Hash)
      → IsHonest l.spy_node
      → IsTracked l
      → reinitialize l ≡ ok l'
      → IsTracked l'
  unfolding reinitialize
  reinitialize-IsTracked l l' n t r = elim (Outcome-cases (initialize_headers l)) [
    | inl (m, q) ↦
        let same : m ≡ l' = ground arith in initialize_headers-IsTracked l l' n t (rw (← same) q)
    | inr (inl (x, q)) ↦ let same : l ≡ l' = ground arith in rw (← same) t
    | inr (inr q) ↦ absurd (ground arith)
  ]

  clean_hashes-IsTracked :
      (l l' : Listener Hash)
      → IsHonest l.spy_node
      → IsTracked l
      → clean_hashes l ≡ ok l'
      → IsTracked l'
  unfolding clean_hashes
  clean_hashes-IsTracked l l' n t r = elim (Bool-cases (ltb l.offset (length l.hashes))) [
    | inl long ↦
        let same : record l { hashes = drop (length l.hashes - l.offset) l.hashes } ≡ l' =
          ground arith in
        rw (← same) (Tracks-drop true_height (length l.hashes - l.offset) l.height l.hashes t)
    | inr fits ↦ elim (Bool-cases (ltb (length l.hashes) l.offset)) [
      | inl short ↦ reinitialize-IsTracked l l' n t (ground arith)
      | inr exact ↦ let same : l ≡ l' = ground arith in rw (← same) t
    ]
  ]

  finish-IsTracked :
      (l l' : Listener Hash) (s : Scan Hash)
      → IsHonest l.spy_node
      → Tracks true_height s.height s.hashes
      → finish l s ≡ ok l'
      → IsTracked l'
  unfolding finish
  finish-IsTracked l l' s n t r =
      let m : Listener Hash = record l { hashes = s.hashes; height = s.height } in
      elim (Bool-cases (s.appended == 0)) [
        | inl idle ↦ reinitialize-IsTracked m l' n t (ground arith)
        | inr linked ↦ clean_hashes-IsTracked m l' n t (ground arith)
      ]

  -- The height that is reported is that of the hash that is reported.
  pub recent_sig_hash-IsTracked :
      (l : Listener Hash) (h : Hash) (n : ℕ)
      → IsTracked l
      → recent_sig_hash l ≡ ok (h, n)
      → n ≡ true_height h % u32
  unfolding recent_sig_hash
  recent_sig_hash-IsTracked l h n t r = ground (arith, Tracks-first true_height l.height l.hashes h)

module _ {Hash : Type 0} ⦃e : Comparable Hash⦄ (true_height : Hash → ℕ) where
  handle_batch-IsTracked :
      (l l' : Listener Hash) (headers : List (Header Hash)) (latest : Hash)
      → IsHonest true_height l.spy_node
      → IsTracked true_height l
      → last? l.hashes ≡ some latest
      → All (IsChild true_height) headers
      → AreStraight true_height headers (start_scan l latest)
      → handle_batch l (some latest) headers ≡ ok l'
      → IsTracked true_height l'
  unfolding handle_batch
  handle_batch-IsTracked l l' [] latest n t last c st r = let same : l ≡ l' = cc in rw (← same) t
  handle_batch-IsTracked l l' (h ∷ headers) latest n t last c st r =
      let start = start_scan l latest in
      let sound =
        scan_headers-IsSound true_height (h ∷ headers) start c st
          (record { tracked = t; last = last }) in
      finish-IsTracked true_height l l' (scan_headers (h ∷ headers) start) n sound.tracked r

  -- From a window at its true heights, after a batch of straight headers, each the child of its
  -- previous block, with an honest node, the height that `RecentSigHash` reports is the true height
  -- of the hash that it reports, modulo 2 ^ 32.
  pub recent_sig_hash-handle_headers :
      (l l' : Listener Hash) (batch : Headers Hash) (latest h : Hash) (n : ℕ)
      → IsHonest true_height l.spy_node
      → IsTracked true_height l
      → last? l.hashes ≡ some latest
      → All (IsChild true_height) batch.headers
      → AreStraight true_height batch.headers (start_scan l latest)
      → handle_headers l batch ≡ ok l'
      → recent_sig_hash l' ≡ ok (h, n)
      → n ≡ true_height h % u32
  unfolding handle_headers
  recent_sig_hash-handle_headers l l' batch latest h n honest t last c st r q =
      recent_sig_hash-IsTracked true_height l' h n
        (handle_batch-IsTracked l l' batch.headers latest honest t last c st (rw last at r)) q
