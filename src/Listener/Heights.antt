-- ===== src/Listener/Heights.antt =====
-- The heights of the window.
use identity_oracle.Prelude.{
  ℕ, zero, suc, ◌+◌, ◌-◌, ◌%◌, ◌<◌, ◌≡◌, some, List, [], ◌∷◌, ◌++◌, length, last?, get_elem?, drop,
  map, arith, ap, length-append, length-map,
}
use identity_oracle.Listener.{u32, add32, sub32, Header}
use identity_oracle.Listener.Chain.{Tracks, IsAligned}

pub add32-lt : (a b : ℕ) → add32 a b < u32
unfolding add32
add32-lt a b = omega arith

module _ {Hash : Type 0} (true_height : Hash → ℕ) where
  pub Tracks-drop :
      (n height : ℕ) (hs : List Hash)
      → Tracks true_height height hs
      → Tracks true_height height (drop n hs)
  Tracks-drop zero height hs t = t
  Tracks-drop (suc n) height [] t = t
  Tracks-drop (suc n) height (h ∷ hs) t = Tracks-drop n height hs t.1

  pub Tracks-extend :
      (height : ℕ) (hs : List Hash) {latest : Hash} (next : Hash)
      → last? hs ≡ some latest
      → true_height next ≡ true_height latest + 1
      → Tracks true_height height hs
      → Tracks true_height (add32 height 1) (hs ++ next ∷ [])
  unfolding add32
  Tracks-extend height [] next l e t = cc
  Tracks-extend height (h ∷ []) {latest} next l e t =
      let same : h ≡ latest = cc in
      let th : true_height h ≡ true_height latest = ap true_height same in
      (omega arith, (omega arith, tt))
  Tracks-extend height (h ∷ k ∷ hs) next l e t =
      (omega (arith, length-append hs (next ∷ [])), Tracks-extend height (k ∷ hs) next l e t.1)

  -- A window that consists of one hash, put in place of the hashes behind the oldest.
  pub Tracks-refork :
      (height n : ℕ) (oldest next : Hash)
      → true_height next ≡ true_height oldest + 1
      → (true_height oldest + n) % u32 ≡ height % u32
      → Tracks true_height (add32 (sub32 height n) 1) (next ∷ [])
  unfolding add32 sub32
  Tracks-refork height n oldest next e t = (omega arith, tt)

  pub Tracks-oldest :
      (height : ℕ) (hs : List Hash) (h : Hash)
      → get_elem? hs 0 ≡ some h
      → Tracks true_height height hs
      → (true_height h + (length hs - 1)) % u32 ≡ height % u32
  Tracks-oldest height [] h e t = cc
  Tracks-oldest height (k ∷ hs) h e t =
      let same : k ≡ h = cc in
      let th : true_height k ≡ true_height h = ap true_height same in omega (arith, t.0)

  -- In a tracked window the first hash is at the height that `RecentSigHash` computes.
  pub Tracks-first :
      (height : ℕ) (hs : List Hash) (h : Hash)
      → get_elem? hs 0 ≡ some h
      → Tracks true_height height hs
      → add32 (sub32 height (length hs)) 1 ≡ true_height h % u32
  unfolding add32 sub32
  Tracks-first height [] h e t = cc
  Tracks-first height (k ∷ hs) h e t =
      let same : k ≡ h = cc in
      let th : true_height k ≡ true_height h = ap true_height same in omega (arith, t.0)

  pub IsAligned-Tracks :
      (start height : ℕ) (hs : List (Header Hash))
      → (start + length hs) % u32 ≡ (height + 1) % u32
      → IsAligned true_height start hs
      → Tracks true_height height (map (λ x. x.block_hash) hs)
  IsAligned-Tracks start height [] e a = tt
  IsAligned-Tracks start height (h ∷ hs) e a = (
    omega (arith, a.0, length-map hs (λ x. x.block_hash)),
    IsAligned-Tracks (start + 1) height hs (omega arith) a.1,
  )
