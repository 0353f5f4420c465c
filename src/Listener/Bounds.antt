-- ===== src/Listener/Bounds.antt =====
-- How long the window is after `HandleHeaders`, and when `RecentSigHash` answers.
use identity_oracle.Prelude.{
  ℕ, ◌-◌, ◌≡◌, ◌≢◌, ◌<◌, refl, inl, inr, none, some, List, [], ◌∷◌, length, last?, get_elem?, drop,
  ltb, arith, Bool-cases, Option-cases, length-drop, length-map,
}
use identity_oracle.Prelude.Equality.{Comparable, nat_comparable}
use identity_oracle.Prelude.Tests.{◌==◌ as nat_eq}
use identity_oracle.Errors.{Outcome, ok, Text}
use identity_oracle.Listener.{
  add32, sub32, Header, Headers, Listener, Scan, scan_headers, start_scan, load_headers,
  initialize_headers, reinitialize, clean_hashes, finish, handle_batch, handle_headers,
  recent_sig_hash,
}

module _ {Hash : Type 0} where
  -- A window that `RecentSigHash` can answer from, with a height that fits.
  pub record IsFull (l : Listener Hash) : Type 0 where
    pub is_long : length l.hashes ≡ l.offset
    pub some_hash : 0 < l.offset

  recent_sig_hash-IsFull :
      (l : Listener Hash) → IsFull l → (h : Hash) × ((n : ℕ) × (recent_sig_hash l ≡ ok (h, n)))
  unfolding recent_sig_hash
  recent_sig_hash-IsFull l f = elim (Option-cases (get_elem? l.hashes 0)) [
    | inl z ↦ absurd (missing l.hashes z (omega (arith, f.is_long, f.some_hash)))
    | inr (h, y) ↦ (h, (add32 (sub32 l.height l.offset) 1, ground (arith, f.is_long)))
  ]
    where
      missing : (hs : List Hash) → get_elem? hs 0 ≡ none → 0 < length hs → ⊥
      missing [] z b = omega arith
      missing (h ∷ hs) z b = cc

  load_headers-IsFull :
      (l : Listener Hash) (start : ℕ) (headers : List (Header Hash))
      → length headers ≡ l.offset
      → 0 < l.offset
      → IsFull (load_headers l start headers)
  unfolding load_headers
  load_headers-IsFull l start [] e p = absurd (omega arith)
  load_headers-IsFull l start (h ∷ hs) e p = record {
    is_long = omega (arith, length-map hs (λ x. x.block_hash));
    some_hash = p;
  }

  reinitialize-IsFull :
      (l : Listener Hash) (node : ℕ → Outcome Text (Headers Hash)) (reply : Headers Hash)
      → l.spy_node ≡ some node
      → node l.offset ≡ ok reply
      → length reply.headers ≡ l.offset
      → 0 < l.offset
      → (l' : Listener Hash) × (reinitialize l ≡ ok l') × IsFull l'
  unfolding reinitialize initialize_headers
  reinitialize-IsFull l node reply s q e p = (
    load_headers l reply.start_height reply.headers,
    ground arith,
    load_headers-IsFull l reply.start_height reply.headers e p,
  )

  clean_hashes-IsFull :
      (l : Listener Hash) (node : ℕ → Outcome Text (Headers Hash)) (reply : Headers Hash)
      → l.spy_node ≡ some node
      → node l.offset ≡ ok reply
      → length reply.headers ≡ l.offset
      → 0 < l.offset
      → (l' : Listener Hash) × (clean_hashes l ≡ ok l') × IsFull l'
  unfolding clean_hashes
  clean_hashes-IsFull l node reply s q e p = elim (Bool-cases (ltb l.offset (length l.hashes))) [
    | inl long ↦ (
      record l { hashes = drop (length l.hashes - l.offset) l.hashes },
      ground arith,
      record {
        is_long = rw (length-drop (length l.hashes - l.offset) l.hashes) (ground arith);
        some_hash = p;
      },
    )
    | inr fits ↦ elim (Bool-cases (ltb (length l.hashes) l.offset)) [
      | inl short ↦
          let (l', r, f) = reinitialize-IsFull l node reply s q e p in (l', ground arith, f)
      | inr exact ↦ (l, ground arith, record { is_long = ground arith; some_hash = p })
    ]
  ]

  finish-IsFull :
      (l : Listener Hash) (s : Scan Hash) (node : ℕ → Outcome Text (Headers Hash))
      (reply : Headers Hash)
      → l.spy_node ≡ some node
      → node l.offset ≡ ok reply
      → length reply.headers ≡ l.offset
      → 0 < l.offset
      → (l' : Listener Hash) × (finish l s ≡ ok l') × IsFull l'
  unfolding finish
  finish-IsFull l s node reply n q e p =
      let m : Listener Hash = record l { hashes = s.hashes; height = s.height } in
      elim (Bool-cases (nat_eq s.appended 0)) [
        | inl idle ↦
            let (l', r, f) = reinitialize-IsFull m node reply n q e p in (l', ground arith, f)
        | inr linked ↦
            let (l', r, f) = clean_hashes-IsFull m node reply n q e p in (l', ground arith, f)
      ]

module _ {Hash : Type 0} ⦃e : Comparable Hash⦄ where
  handle_batch-IsFull :
      (l : Listener Hash) (latest : Hash) (headers : List (Header Hash))
      (node : ℕ → Outcome Text (Headers Hash)) (reply : Headers Hash)
      → headers ≢ []
      → l.spy_node ≡ some node
      → node l.offset ≡ ok reply
      → length reply.headers ≡ l.offset
      → 0 < l.offset
      → (l' : Listener Hash) × (handle_batch l (some latest) headers ≡ ok l') × IsFull l'
  unfolding handle_batch
  handle_batch-IsFull l latest [] node reply k n q c p = absurd (k refl)
  handle_batch-IsFull l latest (h ∷ hs) node reply k n q c p =
      finish-IsFull l (scan_headers (h ∷ hs) (start_scan l latest)) node reply n q c p

  -- Whatever headers arrive at a window that is not empty, linked or not, if the node answers with as
  -- many headers as it is asked for, `HandleHeaders` returns and `RecentSigHash` answers after it.
  pub recent_sig_hash-available :
      (l : Listener Hash) (batch : Headers Hash) (latest : Hash)
      (node : ℕ → Outcome Text (Headers Hash)) (reply : Headers Hash)
      → last? l.hashes ≡ some latest
      → batch.headers ≢ []
      → l.spy_node ≡ some node
      → node l.offset ≡ ok reply
      → length reply.headers ≡ l.offset
      → 0 < l.offset
      → (l' : Listener Hash) × (handle_headers l batch ≡ ok l')
        × ((h : Hash) × ((n : ℕ) × (recent_sig_hash l' ≡ ok (h, n))))
  unfolding handle_headers
  recent_sig_hash-available l batch latest node reply a b n q c p =
      let (l', r, f) = handle_batch-IsFull l latest batch.headers node reply b n q c p in
      (l', rw a r, recent_sig_hash-IsFull l' f)
