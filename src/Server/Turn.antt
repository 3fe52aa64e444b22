-- ===== src/Server/Turn.antt =====
-- src/spe_server.c, `spe_server_postloop`, and a whole turn of the two loops.
use spe.Base.{ℕ, ◌≡◌, refl, ◌∙◌, Bool, true, false, List, [], ◌∷◌, All, if◌then◌else◌, ◌==◌}
use spe.Server.Hold.{IsNet, Other, Separate, Between, InTurn, others_apart}
use spe.Server.{Server, Net, postloop}

module _ {W : Type 0} (net : Net W) (mine listening : W → ℕ → Bool)
    (laws : IsNet net mine listening) where
  if-unlock-other :
      (b : Bool) (w : W) (m j : ℕ)
      → (j == m) ≡ false
      → mine (if b then net.unlock w m else w) j ≡ mine w j
  if-unlock-other true w m j n = laws.unlock-other w m j n
  if-unlock-other false w m j n = refl

  if-unlock-listening :
      (b : Bool) (w : W) (m j : ℕ) → listening (if b then net.unlock w m else w) j ≡ listening w j
  if-unlock-listening true w m j = laws.unlock-listening w m j
  if-unlock-listening false w m j = refl

  if-unlock-here :
      (b : Bool) (w : W) (m : ℕ) → mine w m ≡ b → mine (if b then net.unlock w m else w) m ≡ false
  if-unlock-here true w m h = laws.unlock-here w m
  if-unlock-here false w m h = h

  postloop-other :
      (ss : List Server) (w : W) (j fd : ℕ)
      → All (λ t. ((j == t.mutex) ≡ false) × ((fd == t.sfd) ≡ false)) ss
      → (mine (postloop net w ss) j ≡ mine w j)
        × (listening (postloop net w ss) fd ≡ listening w fd)
  unfolding postloop
  postloop-other [] w j fd h = (refl, refl)
  postloop-other (s ∷ ss) w j fd (h, hs) =
      let (a, b) = postloop-other ss (if s.hold then net.unlock w s.mutex else w) j fd hs in
      (a ∙ if-unlock-other s.hold w s.mutex j h.0, b ∙ if-unlock-listening s.hold w s.mutex fd)

  unlock-InTurn :
      (s : Server) (ss : List Server) (w : W)
      → All (Other s) ss
      → All (InTurn net mine listening w) ss
      → All (InTurn net mine listening (if s.hold then net.unlock w s.mutex else w)) ss
  unlock-InTurn s [] w o h = tt
  unlock-InTurn s (t ∷ ts) w (o, os) ((m, l), hs) = (
    (
      if-unlock-other s.hold w s.mutex t.mutex o.0 ∙ m,
      if-unlock-listening s.hold w s.mutex t.sfd ∙ l,
    ),
    unlock-InTurn s ts w os hs,
  )

  -- `spe_server_postloop` leaves every mutex free, and each server listening as its flag says: what the
  -- next `spe_server_preloop` starts from.
  pub postloop-Between :
      (ss : List Server) (w : W)
      → Separate ss
      → All (InTurn net mine listening w) ss
      → All (Between net mine listening (postloop net w ss)) ss
  unfolding postloop
  postloop-Between [] w sep h = tt
  postloop-Between (s ∷ ss) w (o, sep) ((m, l), hs) =
      let w' : W = if s.hold then net.unlock w s.mutex else w in
      let (a, b) =
        postloop-other ss w' s.mutex s.sfd
          (others_apart net mine listening laws s ss s.mutex s.sfd (refl, refl) o) in
      (
        (a ∙ if-unlock-here s.hold w s.mutex m, b ∙ if-unlock-listening s.hold w s.mutex s.sfd ∙ l),
        postloop-Between ss w' sep (unlock-InTurn s ss w o hs),
      )
