-- ===== src/Server/Hold.antt =====
-- src/spe_server.c, `spe_server_preloop`: who listens.
use spe.Base.{
  ℕ, ◌≡◌, refl, Bool, true, false, Bool-cases, inl, inr, List, [], ◌∷◌, All, arith, ◌==◌,
}
use spe.Server.{Server, Net, on_trylock}

-- What is relied on: `mine` tells which mutexes this process holds, `listening` which sockets epoll
-- watches for it. The documented behaviour of the mutex, and that the calls of epoll succeed.
pub record IsNet {W : Type 0} (net : Net W) (mine listening : W → ℕ → Bool) : Type 0 where
  pub trylock-here :
      (w : W) (m : ℕ) → mine w m ≡ false → mine (net.trylock w m).0 m ≡ (net.trylock w m).1
  pub trylock-other : (w : W) (m j : ℕ) → (j == m) ≡ false → mine (net.trylock w m).0 j ≡ mine w j
  pub trylock-listening : (w : W) (m j : ℕ) → listening (net.trylock w m).0 j ≡ listening w j
  pub unlock-here : (w : W) (m : ℕ) → mine (net.unlock w m) m ≡ false
  pub unlock-other : (w : W) (m j : ℕ) → (j == m) ≡ false → mine (net.unlock w m) j ≡ mine w j
  pub unlock-listening : (w : W) (m j : ℕ) → listening (net.unlock w m) j ≡ listening w j
  pub listen-here : (w : W) (fd t : ℕ) → listening (net.listen w fd t) fd ≡ true
  pub listen-other :
      (w : W) (fd t j : ℕ) → (j == fd) ≡ false → listening (net.listen w fd t) j ≡ listening w j
  pub listen-mine : (w : W) (fd t j : ℕ) → mine (net.listen w fd t) j ≡ mine w j
  pub unlisten-here : (w : W) (fd : ℕ) → listening (net.unlisten w fd) fd ≡ false
  pub unlisten-other :
      (w : W) (fd j : ℕ) → (j == fd) ≡ false → listening (net.unlisten w fd) j ≡ listening w j
  pub unlisten-mine : (w : W) (fd j : ℕ) → mine (net.unlisten w fd) j ≡ mine w j

-- Every server has its own mutex and its own socket.
abbrev pub Other : Server → Server → Type 0
Other s t = ((t.mutex == s.mutex) ≡ false) × ((t.sfd == s.sfd) ≡ false)

abbrev pub Separate : List Server → Type 0
Separate [] = Unit
Separate (s ∷ ss) = All (Other s) ss × Separate ss

module _ {W : Type 0} (net : Net W) (mine listening : W → ℕ → Bool) where
  -- Between two turns of the loop: no mutex is held, and a server listens if its flag is set.
  abbrev pub Between : W → Server → Type 0
  Between w s = (mine w s.mutex ≡ false) × (listening w s.sfd ≡ s.hold)

  -- In a turn: the flag tells both whether the mutex is held and whether the server listens.
  abbrev pub InTurn : W → Server → Type 0
  InTurn w s = (mine w s.mutex ≡ s.hold) × (listening w s.sfd ≡ s.hold)

  module _ (laws : IsNet net mine listening) where
    pub on_trylock-same :
        (s : Server) (r : W × Bool)
        → ((on_trylock net r s).1.mutex ≡ s.mutex) × ((on_trylock net r s).1.sfd ≡ s.sfd)
    unfolding on_trylock
    on_trylock-same s (w, true) = elim (Bool-cases s.hold) [
      | inl q ↦ rw q (refl, refl)
      | inr q ↦ rw q (refl, refl)
    ]
    on_trylock-same s (w, false) = elim (Bool-cases s.hold) [
      | inl q ↦ rw q (refl, refl)
      | inr q ↦ rw q (refl, refl)
    ]

    abbrev one_turn : W → Server → W × Server
    one_turn w s = on_trylock net (net.trylock w s.mutex) s

    pub others_apart :
        (s : Server) (ss : List Server) (j fd : ℕ)
        → (j ≡ s.mutex) × (fd ≡ s.sfd)
        → All (Other s) ss
        → All (λ t. ((j == t.mutex) ≡ false) × ((fd == t.sfd) ≡ false)) ss
    others_apart s [] j fd e h = tt
    others_apart s (t ∷ ts) j fd e ((a, b), hs) =
        let m : (j == t.mutex) ≡ false = ground (arith, e.0, a) in
        let f : (fd == t.sfd) ≡ false = ground (arith, e.1, b) in
        ((m, f), others_apart s ts j fd e hs)
