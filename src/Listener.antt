-- ===== src/Listener.antt =====
-- internal/oracle/listener.go, the window of recent block hashes: `Listener` and its handlers of
-- headers. A header is its previous block's hash and its own, the result of `BlockHash`.
-- Here a call runs alone, as one step; Listener.Interleaving has the sections that hold the mutex,
-- between which other calls may run. A `uint32` height is kept modulo 2 ^ 32.

pub mod Chain
mod Heights
mod Scanning
pub mod Reports
pub mod Batches
pub mod Forks
pub mod Bounds
pub mod Limits
pub mod Interleaving
mod Tests
pub mod SectionTests
use identity_oracle.Prelude.{
  ℕ, suc, ◌+◌, ◌-◌, ◌%◌, ◌^◌, Option, none, some, List, [], ◌∷◌, ◌++◌, map, length, get_elem?,
  last?, take, drop, ltb, if◌then◌else◌,
}
use identity_oracle.Prelude.Tests.{◌==◌ as nat_eq}
use identity_oracle.Prelude.Equality.{Comparable, ◌==◌}
use identity_oracle.Errors.{Outcome, ok, err, panic, ◌>>=◌, Text, literal, got_want}

abbrev pub u32 : ℕ
u32 = 2 ^ 32

-- `a + b` and `a - b` on uint32.
unfoldable pub add32 : ℕ → ℕ → ℕ
add32 a b = (a + b) % u32

unfoldable pub sub32 : ℕ → ℕ → ℕ
sub32 a b = (a + (u32 - b % u32)) % u32

pub record Header (Hash : Type 0) : Type 0 where
  pub prev_block : Hash
  pub block_hash : Hash

-- `client.Headers`, as far as it is read.
pub record Headers (Hash : Type 0) : Type 0 where
  pub start_height : ℕ
  pub headers : List (Header Hash)

-- The fields of `Listener` that these operations read; `get_headers` is the node's
-- `GetHeaders(ctx, -1, n)`, and the node may be nil.
pub record Listener (Hash : Type 0) : Type 0 where
  pub spy_node : Option (ℕ → Outcome Text (Headers Hash))
  pub offset : ℕ
  pub hashes : List Hash
  pub height : ℕ

module _ {Hash : Type 0} where
  unfoldable pub new_listener : Option (ℕ → Outcome Text (Headers Hash)) → Listener Hash
  new_listener node = record { spy_node = node; offset = 5; hashes = []; height = 0 }

  -- The first hash and the height that it is said to have. `&l.hashes[0]` panics on an empty slice.
  unfoldable pub recent_sig_hash : Listener Hash → Outcome Text (Hash × ℕ)
  unfolding add32 sub32
  recent_sig_hash l =
      if nat_eq (length l.hashes) l.offset
      then elim (get_elem? l.hashes 0) [
        | none ↦ panic
        | some h ↦ ok (h, add32 (sub32 l.height l.offset) 1)
      ]
      else err (got_want "bad header count" (length l.hashes) l.offset)

  -- The window that a reply of the node stands for. No reply leaves the window alone.
  unfoldable pub load_headers : Listener Hash → ℕ → List (Header Hash) → Listener Hash
  unfolding add32 sub32
  load_headers l start_height [] = l
  load_headers l start_height (h ∷ hs) = record l {
    height = sub32 (add32 start_height (length (h ∷ hs))) 1;
    hashes = map (λ x. x.block_hash) (h ∷ hs);
  }

  unfoldable pub initialize_headers : Listener Hash → Outcome Text (Listener Hash)
  unfolding load_headers
  initialize_headers l = elim l.spy_node [
    | none ↦ err (literal "No spynode to initialize headers")
    | some get_headers ↦ (do
      reply ← get_headers l.offset
      ok (load_headers l reply.start_height reply.headers))
  ]

  -- An error of `InitializeHeaders` is logged, and the window stays.
  unfoldable pub reinitialize : Listener Hash → Outcome Text (Listener Hash)
  unfolding initialize_headers
  reinitialize l = elim (initialize_headers l) [ ok l' ↦ ok l' | err e ↦ ok l | panic ↦ panic ]

  unfoldable pub clean_hashes : Listener Hash → Outcome Text (Listener Hash)
  unfolding reinitialize
  clean_hashes l =
      if ltb l.offset (length l.hashes)
      then ok (record l { hashes = drop (length l.hashes - l.offset) l.hashes })
      else if ltb (length l.hashes) l.offset
      then reinitialize l
      else ok l

-- The variables of the loop over the new headers.
pub record Scan (Hash : Type 0) : Type 0 where
  pub hashes : List Hash
  pub height : ℕ
  pub latest : Hash
  pub appended : ℕ

module _ {Hash : Type 0} where
  -- The two ways to link a header: behind the latest hash, or in place of the hashes from `i` on.
  unfoldable pub extend : Header Hash → Scan Hash → Scan Hash
  unfolding add32
  extend header s = record {
    hashes = s.hashes ++ header.block_hash ∷ [];
    height = add32 s.height 1;
    latest = header.block_hash;
    appended = s.appended + 1;
  }

  unfoldable pub reorg : ℕ → Header Hash → Scan Hash → Scan Hash
  unfolding add32 sub32
  reorg i header s = record {
    hashes = take i s.hashes ++ header.block_hash ∷ [];
    height = add32 (sub32 s.height (length s.hashes - (i + 1))) 1;
    latest = header.block_hash;
    appended = s.appended + 1;
  }

  abbrev pub start_scan : Listener Hash → Hash → Scan Hash
  start_scan l latest = record {
    hashes = l.hashes;
    height = l.height;
    latest = latest;
    appended = 0;
  }

  -- What follows the loop: rebuild if nothing was linked, trim otherwise.
  unfoldable pub finish : Listener Hash → Scan Hash → Outcome Text (Listener Hash)
  unfolding reinitialize clean_hashes
  finish l s =
      let l' = record l { hashes = s.hashes; height = s.height } in
      if nat_eq s.appended 0 then reinitialize l' else clean_hashes l'

module _ {Hash : Type 0} ⦃e : Comparable Hash⦄ where
  -- The index of the first hash that is `prev`.
  unfoldable pub find_hash : Hash → List Hash → Option ℕ
  find_hash prev [] = none
  find_hash prev (h ∷ hs) =
      if prev == h then some 0 else elim (find_hash prev hs) [ none ↦ none | some i ↦ some (suc i) ]

  unfoldable pub scan_header : Header Hash → Scan Hash → Scan Hash
  scan_header header s =
      if header.prev_block == s.latest
      then extend header s
      else elim (find_hash header.prev_block s.hashes) [ none ↦ s | some i ↦ reorg i header s ]

  unfoldable pub scan_headers : List (Header Hash) → Scan Hash → Scan Hash
  scan_headers [] s = s
  scan_headers (header ∷ headers) s = scan_headers headers (scan_header header s)

  -- `l.hashes[len(l.hashes)-1]` panics on an empty slice, which is `latest` at none.
  unfoldable pub handle_batch :
      Listener Hash → Option Hash → List (Header Hash) → Outcome Text (Listener Hash)
  handle_batch l latest [] = ok l
  handle_batch l none (header ∷ headers) = panic
  handle_batch l (some latest) (header ∷ headers) =
      finish l (scan_headers (header ∷ headers) (start_scan l latest))

  unfoldable pub handle_headers : Listener Hash → Headers Hash → Outcome Text (Listener Hash)
  unfolding handle_batch
  handle_headers l batch = handle_batch l (last? l.hashes) batch.headers
