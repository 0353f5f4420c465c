-- ===== src/Listener/Interleaving.antt =====
-- Calls of `HandleHeaders`, `cleanHashes` and `InitializeHeaders` in any order, also at once: the
-- sections that hold `hashesLock`, each a step on the window.
use identity_oracle.Prelude.{
  ℕ, suc, ◌+◌, ◌-◌, ◌%◌, ◌≡◌, ◌<◌, inl, inr, some, List, [], ◌∷◌, ◌++◌, length, last?, drop, map,
  ltb, All, arith, Bool-cases, Option-cases, length-map, length-append, true,
}
use identity_oracle.Prelude.Equality.{Comparable, nat_comparable}
use identity_oracle.Prelude.Tests.{◌==◌ as nat_eq}
use identity_oracle.Errors.{ok, err, got_want, Outcome-cases}
use identity_oracle.Listener.{
  u32, Header, Headers, Listener, scan_headers, start_scan, load_headers, initialize_headers,
  reinitialize, clean_hashes, finish, handle_batch, handle_headers, recent_sig_hash,
}
use identity_oracle.Listener.Chain.{IsChild, IsChain, IsAligned}
use identity_oracle.Listener.Heights.{Tracks-drop}
use identity_oracle.Listener.Scanning.{AreStraight, scan_headers-chain, scan_headers-IsSound}
use identity_oracle.Listener.Reports.{
  IsHonest, IsTracked, load_headers-IsTracked, recent_sig_hash-IsTracked,
}

module _ {Hash : Type 0} ⦃e : Comparable Hash⦄ where
  -- The section of `HandleHeaders`: the loop over the new headers, from the last hash.
  abbrev pub link_section : List (Header Hash) → Hash → Listener Hash → Listener Hash
  link_section headers latest l =
      let s = scan_headers headers (start_scan l latest) in
      record l { hashes = s.hashes; height = s.height }

  -- The section of `cleanHashes`, on a window that is too long.
  abbrev pub trim_section : Listener Hash → Listener Hash
  trim_section l = record l { hashes = drop (length l.hashes - l.offset) l.hashes }

module _ {Hash : Type 0} ⦃e : Comparable Hash⦄ (true_height : Hash → ℕ) where
  -- One section of any call: new headers that are straight children, a trim, or the reply of the node to
  -- a request that may be long past.
  pub data Section (l : Listener Hash) : Listener Hash → Type 0 where
    linked :
        (headers : List (Header Hash)) (latest : Hash)
        → last? l.hashes ≡ some latest
        → All (IsChild true_height) headers
        → AreStraight true_height headers (start_scan l latest)
        → Section l (link_section headers latest l)
    trimmed : ltb l.offset (length l.hashes) ≡ true → Section l (trim_section l)
    loaded :
        (reply : Headers Hash)
        → IsAligned true_height reply.start_height reply.headers
        → Section l (load_headers l reply.start_height reply.headers)

  -- Sections of any number of calls, one after the other.
  pub data Sections (l : Listener Hash) : Listener Hash → Type 0 where
    at_rest : Sections l l
    then_section : {m k : Listener Hash} → Sections l m → Section m k → Sections l k

  Section-IsTracked :
      (l k : Listener Hash) → IsTracked true_height l → Section l k → IsTracked true_height k
  Section-IsTracked l k t (linked headers latest last c st) =
      (scan_headers-IsSound true_height headers (start_scan l latest) c st
        (record { tracked = t; last = last })).tracked
  Section-IsTracked l k t (trimmed long) =
      Tracks-drop true_height (length l.hashes - l.offset) l.height l.hashes t
  Section-IsTracked l k t (loaded reply a) =
      load_headers-IsTracked true_height l reply.start_height reply.headers a t

  Sections-IsTracked :
      (l k : Listener Hash) → IsTracked true_height l → Sections l k → IsTracked true_height k
  Sections-IsTracked l k t at_rest = t
  Sections-IsTracked l k t (then_section {m} before s) =
      Section-IsTracked m k (Sections-IsTracked l m t before) s

  -- However calls interleave between their locked sections, if the headers are straight children and
  -- the node's replies are honest, `RecentSigHash` never reports a hash with a height that is not its
  -- own, modulo 2 ^ 32.
  pub recent_sig_hash-Sections :
      (l k : Listener Hash) (h : Hash) (n : ℕ)
      → IsTracked true_height l
      → Sections l k
      → recent_sig_hash k ≡ ok (h, n)
      → n ≡ true_height h % u32
  recent_sig_hash-Sections l k h n t run r =
      recent_sig_hash-IsTracked true_height k h n (Sections-IsTracked l k t run) r

  reinitialize-Sections :
      (l k m : Listener Hash)
      → IsHonest true_height k.spy_node
      → reinitialize k ≡ ok m
      → Sections l k
      → Sections l m
  unfolding reinitialize initialize_headers
  reinitialize-Sections l k m honest r before = elim (Option-cases k.spy_node) [
    | inl z ↦ let same : k ≡ m = ground arith in rw (← same) before
    | inr (node, y) ↦ elim (Outcome-cases (node k.offset)) [
      | inl (reply, q) ↦
          let same : load_headers k reply.start_height reply.headers ≡ m = ground arith in
          rw (← same) (then_section before (loaded reply (honest.aligned node k.offset reply y q)))
      | inr (inl (x, q)) ↦ let same : k ≡ m = ground arith in rw (← same) before
      | inr (inr q) ↦ absurd (ground arith)
    ]
  ]

  clean_hashes-Sections :
      (l k m : Listener Hash)
      → IsHonest true_height k.spy_node
      → clean_hashes k ≡ ok m
      → Sections l k
      → Sections l m
  unfolding clean_hashes
  clean_hashes-Sections l k m honest r before = elim (Bool-cases (ltb k.offset (length k.hashes))) [
    | inl long ↦
        let same : trim_section k ≡ m = ground arith in
        rw (← same) (then_section before (trimmed long))
    | inr fits ↦ elim (Bool-cases (ltb (length k.hashes) k.offset)) [
      | inl short ↦ reinitialize-Sections l k m honest (ground arith) before
      | inr exact ↦ let same : k ≡ m = ground arith in rw (← same) before
    ]
  ]

  handle_batch-Sections :
      (l m : Listener Hash) (latest : Hash) (headers : List (Header Hash))
      → IsHonest true_height l.spy_node
      → last? l.hashes ≡ some latest
      → All (IsChild true_height) headers
      → AreStraight true_height headers (start_scan l latest)
      → handle_batch l (some latest) headers ≡ ok m
      → Sections l m
  unfolding handle_batch finish
  handle_batch-Sections l m latest [] honest last c st r =
      let same : l ≡ m = cc in rw (← same) at_rest
  handle_batch-Sections l m latest (h ∷ hs) honest last c st r =
      let k = link_section (h ∷ hs) latest l in
      let before = then_section at_rest (linked (h ∷ hs) latest last c st) in
      elim (Bool-cases (nat_eq (scan_headers (h ∷ hs) (start_scan l latest)).appended 0)) [
        | inl idle ↦ reinitialize-Sections l k m honest (ground arith) before
        | inr some_linked ↦ clean_hashes-Sections l k m honest (ground arith) before
      ]

  -- A whole call of `HandleHeaders` on straight children with an honest node is a run of such
  -- sections.
  pub handle_headers-Sections :
      (l m : Listener Hash) (batch : Headers Hash) (latest : Hash)
      → IsHonest true_height l.spy_node
      → last? l.hashes ≡ some latest
      → All (IsChild true_height) batch.headers
      → AreStraight true_height batch.headers (start_scan l latest)
      → handle_headers l batch ≡ ok m
      → Sections l m
  unfolding handle_headers
  handle_headers-Sections l m batch latest honest last c st r =
      handle_batch-Sections l m latest batch.headers honest last c st (rw last at r)

module _ {Hash : Type 0} ⦃e : Comparable Hash⦄ where
  -- Between the two sections of one call, after a chain was linked to a full window and before the
  -- window is trimmed, `RecentSigHash` fails.
  pub recent_sig_hash-link_section :
      (l : Listener Hash) (latest : Hash) (header : Header Hash) (headers : List (Header Hash))
      → length l.hashes ≡ l.offset
      → l.height < u32
      → IsChain latest (header ∷ headers)
      → recent_sig_hash (link_section (header ∷ headers) latest l)
        ≡ err (got_want "bad header count" (l.offset + suc (length headers)) l.offset)
  unfolding recent_sig_hash
  recent_sig_hash-link_section l latest header headers full b c =
      let s = scan_headers-chain (header ∷ headers) (start_scan l latest) b c in
      let long : length (l.hashes ++ map (λ x. x.block_hash) (header ∷ headers))
          ≡ l.offset + suc (length headers) =
        omega (
          arith,
          length-append l.hashes (map (λ x. x.block_hash) (header ∷ headers)),
          length-map headers (λ x. x.block_hash),
          full,
        ) in
      rw s (ground (arith, long))
