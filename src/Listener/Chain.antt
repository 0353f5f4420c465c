-- ===== src/Listener/Chain.antt =====
-- Chains of headers and windows of hashes, stated apart from the code that moves them.
-- `true_height` stands for the height that a block really has.
use identity_oracle.Prelude.{ℕ, ◌+◌, ◌%◌, ◌≡◌, List, [], ◌∷◌, length}
use identity_oracle.Listener.{u32, Header}

module _ {Hash : Type 0} where
  -- Each header's previous block is the header before it, and the first one's is `latest`.
  abbrev pub IsChain : Hash → List (Header Hash) → Type 0
  IsChain latest [] = Unit
  IsChain latest (h ∷ hs) = (h.prev_block ≡ latest) × IsChain h.block_hash hs

  -- The hash that a chain behind `latest` ends with.
  abbrev pub tip : Hash → List (Header Hash) → Hash
  tip latest [] = latest
  tip latest (h ∷ hs) = tip h.block_hash hs

module _ {Hash : Type 0} (true_height : Hash → ℕ) where
  -- A header stands one above its previous block.
  abbrev pub IsChild : Header Hash → Type 0
  IsChild h = true_height h.block_hash ≡ true_height h.prev_block + 1

  -- Counted back from the last hash, which is at `height`, each hash is at its true height.
  abbrev pub Tracks : ℕ → List Hash → Type 0
  Tracks height [] = Unit
  Tracks height (h ∷ hs) = ((true_height h + length hs) % u32 ≡ height % u32) × Tracks height hs

  -- A node's reply is a chain that starts at the height it names.
  abbrev pub IsAligned : ℕ → List (Header Hash) → Type 0
  IsAligned start [] = Unit
  IsAligned start (h ∷ hs) = (true_height h.block_hash ≡ start) × IsAligned (start + 1) hs
