-- ===== src/Listener/Limits.antt =====
-- How large the window gets in `HandleHeaders`.
use identity_oracle.Prelude.{
  ℕ, ◌-◌, ◌≡◌, ◌<◌, ◌≤◌, refl, ◌∙◌, inl, inr, Option, none, some, List, [], ◌∷◌, length, last?,
  drop, ltb, arith, Bool-cases, Option-cases, length-drop, length-map,
}
use identity_oracle.Prelude.Equality.{Comparable, ◌==◌, nat_comparable}
use identity_oracle.Prelude.Tests.{◌==◌ as nat_eq}
use identity_oracle.Errors.{Outcome, ok, Text, Outcome-cases}
use identity_oracle.Listener.{
  u32, sub32, Header, Headers, Listener, Scan, extend, reorg, find_hash, scan_header, scan_headers,
  start_scan, load_headers, initialize_headers, reinitialize, clean_hashes, finish, handle_batch,
  handle_headers,
}
use identity_oracle.Listener.Heights.{add32-lt}

-- The node never sends more headers than it is asked for.
pub record IsModest {Hash : Type 0} (node : Option (ℕ → Outcome Text (Headers Hash))) : Type 0 where
  pub modest :
      (get_headers : ℕ → Outcome Text (Headers Hash)) (n : ℕ) (reply : Headers Hash)
      → node ≡ some get_headers
      → get_headers n ≡ ok reply
      → length reply.headers ≤ n

-- The window holds no more than `offset` hashes, and the height is a uint32.
pub record IsWithin {Hash : Type 0} (l : Listener Hash) : Type 0 where
  pub is_short : length l.hashes ≤ l.offset
  pub is_u32 : l.height < u32

module _ {Hash : Type 0} where
  load_headers-IsWithin :
      (l : Listener Hash) (start : ℕ) (headers : List (Header Hash))
      → length headers ≤ l.offset
      → IsWithin l
      → IsWithin (load_headers l start headers)
  unfolding load_headers sub32
  load_headers-IsWithin l start [] e w = w
  load_headers-IsWithin l start (h ∷ hs) e w = record {
    is_short = omega (arith, length-map hs (λ x. x.block_hash));
    is_u32 = omega arith;
  }

  reinitialize-IsWithin :
      (l l' : Listener Hash)
      → IsModest l.spy_node
      → IsWithin l
      → reinitialize l ≡ ok l'
      → IsWithin l'
  unfolding reinitialize initialize_headers
  reinitialize-IsWithin l l' n w r = elim (Option-cases l.spy_node) [
    | inl z ↦ let same : l ≡ l' = ground arith in rw (← same) w
    | inr (node, y) ↦ elim (Outcome-cases (node l.offset)) [
      | inl (reply, q) ↦
          let same : load_headers l reply.start_height reply.headers ≡ l' = ground arith in
          rw (← same) (
            load_headers-IsWithin l reply.start_height reply.headers
              (n.modest node l.offset reply y q) w)
      | inr (inl (x, q)) ↦ let same : l ≡ l' = ground arith in rw (← same) w
      | inr (inr q) ↦ absurd (ground arith)
    ]
  ]

  clean_hashes-IsWithin :
      (l l' : Listener Hash)
      → IsModest l.spy_node
      → l.height < u32
      → clean_hashes l ≡ ok l'
      → IsWithin l'
  unfolding clean_hashes
  clean_hashes-IsWithin l l' n b r = elim (Bool-cases (ltb l.offset (length l.hashes))) [
    | inl long ↦
        let same : record l { hashes = drop (length l.hashes - l.offset) l.hashes } ≡ l' =
          ground arith in
        rw (← same) (record {
          is_short = rw (length-drop (length l.hashes - l.offset) l.hashes) (ground arith);
          is_u32 = b;
        })
    | inr fits ↦
        let w : IsWithin l = record { is_short = ground arith; is_u32 = b } in
        elim (Bool-cases (ltb (length l.hashes) l.offset)) [
          | inl short ↦ reinitialize-IsWithin l l' n w (ground arith)
          | inr exact ↦ let same : l ≡ l' = ground arith in rw (← same) w
        ]
  ]

module _ {Hash : Type 0} ⦃e : Comparable Hash⦄ where
  -- The loop keeps the height a uint32, and with nothing appended it leaves the hashes.
  record Scanned (s t : Scan Hash) : Type 0 where
    pub is_u32 : t.height < u32
    pub grows : s.appended ≤ t.appended
    pub idle : (t.appended ≡ s.appended) → t.hashes ≡ s.hashes

  scan_header-Scanned :
      (header : Header Hash) (s : Scan Hash) → s.height < u32 → Scanned s (scan_header header s)
  unfolding scan_header extend reorg
  scan_header-Scanned header s b = elim (Bool-cases (header.prev_block == s.latest)) [
    | inl y ↦
        rw (y, scan_header)
          (record {
            is_u32 = add32-lt s.height 1;
            grows = omega arith;
            idle = λ q. absurd (omega arith);
          })
    | inr n ↦ elim (Option-cases (find_hash header.prev_block s.hashes)) [
      | inl z ↦
          rw (n, z, scan_header) (record { is_u32 = b; grows = omega arith; idle = λ q. refl })
      | inr (i, z) ↦
          rw (n, z, scan_header)
            (record {
              is_u32 = add32-lt _ 1;
              grows = omega arith;
              idle = λ q. absurd (omega arith);
            })
    ]
  ]

  scan_headers-Scanned :
      (headers : List (Header Hash)) (s : Scan Hash)
      → s.height < u32
      → Scanned s (scan_headers headers s)
  unfolding scan_headers
  scan_headers-Scanned [] s b = record { is_u32 = b; grows = omega arith; idle = λ q. refl }
  scan_headers-Scanned (h ∷ headers) s b =
      let first = scan_header-Scanned h s b in
      let rest = scan_headers-Scanned headers (scan_header h s) first.is_u32 in
      record {
        is_u32 = rest.is_u32;
        grows = omega (arith, first.grows, rest.grows);
        idle = λ q.
            rest.idle (omega (arith, first.grows, rest.grows))
            ∙ first.idle (omega (arith, first.grows, rest.grows));
      }

  handle_batch-IsWithin :
      (l l' : Listener Hash) (latest : Hash) (headers : List (Header Hash))
      → IsModest l.spy_node
      → IsWithin l
      → handle_batch l (some latest) headers ≡ ok l'
      → IsWithin l'
  unfolding handle_batch finish
  handle_batch-IsWithin l l' latest [] n w r = let same : l ≡ l' = cc in rw (← same) w
  handle_batch-IsWithin l l' latest (h ∷ hs) n w r =
      let s = scan_headers (h ∷ hs) (start_scan l latest) in
      let scanned = scan_headers-Scanned (h ∷ hs) (start_scan l latest) w.is_u32 in
      let m : Listener Hash = record l { hashes = s.hashes; height = s.height } in
      elim (Bool-cases (nat_eq s.appended 0)) [
        | inl idle ↦
            let same = scanned.idle (ground arith) in
            reinitialize-IsWithin m l' n
              (record { is_short = rw same w.is_short; is_u32 = scanned.is_u32 }) (ground arith)
        | inr linked ↦ clean_hashes-IsWithin m l' n scanned.is_u32 (ground arith)
      ]

  -- With a node that never sends more than it is asked for, `HandleHeaders` leaves no more than `offset`
  -- hashes and a height below 2 ^ 32, whatever headers arrive.
  pub handle_headers-IsWithin :
      (l l' : Listener Hash) (batch : Headers Hash)
      → IsModest l.spy_node
      → IsWithin l
      → handle_headers l batch ≡ ok l'
      → IsWithin l'
  unfolding handle_headers
  handle_headers-IsWithin l l' batch n w r = elim (Option-cases (last? l.hashes)) [
    | inl z ↦ empty_window batch.headers (rw (z, handle_headers) at r)
    | inr (latest, z) ↦
        handle_batch-IsWithin l l' latest batch.headers n w (rw (z, handle_headers) at r)
  ]
    where
      empty_window :
          (headers : List (Header Hash)) → handle_batch l none headers ≡ ok l' → IsWithin l'
      empty_window [] q = let same : l ≡ l' = unfold handle_batch in cc in rw (← same) w
      empty_window (h ∷ hs) q = absurd (unfold handle_batch in cc)
