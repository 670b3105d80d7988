-- ===== src/Socket/Drain.antt =====
-- py_native_io/socket.py: `read` with a negative size ends, and returns all that was to come.
use asynchstream.Base.{
  ℕ, zero, suc, ◌<◌, ◌≡◌, refl, sym, ap, ◌∙◌, Bool, true, List, [], ◌∷◌, ◌++◌, length,
  length-append, is_empty, append_assoc, append-nil, negsuc, arith,
}
use asynchstream.Exec.{ok}
use asynchstream.Object.{bytes}
use asynchstream.Socket.{Sock, join, drain, socket_read}

-- `recv` on a blocking socket whose peer sends the bytes `src` and then closes: it succeeds, takes some
-- of the bytes, and none only at the end.
pub record IsPeer {W : Type 0} (sock : Sock W) (src : W → List ℕ) : Type 0 where
  pub chunk : ℕ → Bool → W → List ℕ
  pub after : ℕ → Bool → W → W
  pub recv_lem :
      (n : ℕ) (loop : Bool) (w : W) → sock.recv n loop w ≡ (ok (chunk n loop w), after n loop w)
  pub takes : (n : ℕ) (loop : Bool) (w : W) → src w ≡ chunk n loop w ++ src (after n loop w)
  pub at_end : (n : ℕ) (loop : Bool) (w : W) → is_empty (chunk (suc n) loop w) ≡ true → src w ≡ []

join-append : (bufs : List (List ℕ)) (c : List ℕ) → join (bufs ++ (c ∷ [])) ≡ join bufs ++ c
join-append [] c = append-nil c
join-append (b ∷ bufs) c =
    ap (λ l. b ++ l) (join-append bufs c) ∙ sym (append_assoc b (join bufs) c)

module _ {W : Type 0} (sock : Sock W) (src : W → List ℕ) (peer : IsPeer sock src) where
  drain_all :
      (fuel : ℕ) (bufs : List (List ℕ)) (loop : Bool) (w : W)
      → length (src w) < fuel
      → (w' : W) × (drain sock fuel bufs loop w ≡ (ok (bytes (join bufs ++ src w)), w'))
        × (src w' ≡ [])
  unfolding drain
  drain_all zero bufs loop w h = elim h [ ]
  drain_all (suc fuel) bufs loop w h = go (peer.chunk 65536 loop w) refl (drain_all fuel)
    where
      w1 : W
      w1 = peer.after 65536 loop w

      go :
          (c : List ℕ)
          → peer.chunk 65536 loop w ≡ c
          → ((bs : List (List ℕ)) (l : Bool) (v : W)
              → length (src v) < fuel
              → (w' : W) × (drain sock fuel bs l v ≡ (ok (bytes (join bs ++ src v)), w'))
                × (src w' ≡ []))
          → (w' : W) × (drain sock (suc fuel) bufs loop w ≡ (ok (bytes (join bufs ++ src w)), w'))
            × (src w' ≡ [])
      go [] e ih =
          let z = peer.at_end 65535 loop w (rw e) in
          (
            w1,
            ground (arith, peer.recv_lem 65536 loop w, e, z, append-nil (join bufs)),
            ground (arith, peer.takes 65536 loop w, e, z),
          )
      go (x ∷ c) e ih =
          let t : src w ≡ x ∷ (c ++ src w1) = rw e at (peer.takes 65536 loop w) in
          let fewer : length (src w1) < fuel =
            omega (arith, ap length t, length-append c (src w1)) in
          let (w', q, done) = ih (bufs ++ ((x ∷ c) ∷ [])) loop w1 fewer in
          (
            w',
            ground (
              arith,
              peer.recv_lem 65536 loop w,
              e,
              q,
              t,
              join-append bufs (x ∷ c),
              append_assoc (join bufs) (x ∷ c) (src w1),
            ),
            done,
          )

  -- On a socket whose peer sends some bytes and closes, `read` with a negative size returns, given more fuel
  -- than there are bytes, with exactly the bytes that were to come, and leaves none.
  pub socket_read_all :
      (fuel n : ℕ) (loop : Bool) (w : W)
      → length (src w) < fuel
      → (w' : W) × (socket_read sock fuel (negsuc n) loop w ≡ (ok (bytes (src w)), w'))
        × (src w' ≡ [])
  unfolding socket_read
  socket_read_all fuel n loop w h = drain_all fuel [] loop w h
