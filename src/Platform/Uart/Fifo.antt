-- ===== src/Platform/Uart/Fifo.antt =====
-- The bytes that pass through the UART.
use v.Base.{ℕ, zero, suc, ◌≡◌, refl, sym, ap, ◌∙◌, List, [], ◌∷◌, ◌++◌}
use v.Base.{map, length, u8, bit_and, ◌!=◌, Bool-cases, inl}
use v.Base.{inr}
use mathlib.Core.List.{append_assoc, append-nil}
use v.Platform.Uart.{Uart, ris, update_irq, read, write, take_tx, feed, front, without_front}

-- `n` reads of the data register by the guest.
pub receive : ℕ → Uart → List ℕ × Uart
receive zero u = ([], u)
receive (suc n) u =
    let (byte, u') = read u 0x000 in let (rest, u″) = receive n u' in (byte ∷ rest, u″)

-- The guest writes the bytes to the data register one after the other.
pub send : Uart → List ℕ → Uart
send u [] = u
send u (b ∷ bytes) = send (write u 0x000 b) bytes

update_irq_frame : (u : Uart) → ((update_irq u).rx ≡ u.rx) × ((update_irq u).tx ≡ u.tx)
unfolding update_irq
update_irq_frame u = elim (Bool-cases (bit_and (ris u) u.imsc != 0)) [
  | inl on ↦ rw on (refl, refl)
  | inr off ↦ rw off (refl, refl)
]

read_data : (u : Uart) → (read u 0x000).0 ≡ front u.rx
unfolding read
read_data u = refl

read_data_rest : (u : Uart) → (read u 0x000).1.rx ≡ without_front u.rx
unfolding read
read_data_rest u = (update_irq_frame (record u { rx = without_front u.rx })).0

receive_all :
    (xs : List ℕ) (u : Uart)
    → u.rx ≡ xs
    → ((receive (length xs) u).0 ≡ xs) × ((receive (length xs) u).1.rx ≡ [])
unfolding receive
receive_all [] u e = (refl, e)
receive_all (x ∷ xs) u e =
    let (got, left) = receive_all xs (read u 0x000).1 (read_data_rest u ∙ ap without_front e) in
    (cc (read_data u, ap front e, got), left)

-- Received bytes come out in order: after the host feeds bytes, as many reads of the data register
-- as bytes are waiting return the bytes that waited before and then those fed, and empty the FIFO.
pub receive-feed :
    (u : Uart) (bytes : List ℕ)
    → ((receive (length (u.rx ++ bytes)) (feed u bytes)).0 ≡ u.rx ++ bytes)
      × ((receive (length (u.rx ++ bytes)) (feed u bytes)).1.rx ≡ [])
unfolding feed
receive-feed u bytes =
    receive_all (u.rx ++ bytes) _ (update_irq_frame (record u { rx = u.rx ++ bytes })).0

tx-write : (u : Uart) (b : ℕ) → (write u 0x000 b).tx ≡ u.tx ++ u8 b ∷ []
unfolding write
tx-write u b = (update_irq_frame (record u { tx = u.tx ++ u8 b ∷ [] })).1

tx-send : (bytes : List ℕ) (u : Uart) → (send u bytes).tx ≡ u.tx ++ map u8 bytes
unfolding send
tx-send [] u = sym (append-nil u.tx)
tx-send (b ∷ bytes) u =
    tx-send bytes (write u 0x000 b)
    ∙ ap (λ sent. sent ++ map u8 bytes) (tx-write u b)
    ∙ append_assoc u.tx (u8 b ∷ []) (map u8 bytes)

-- Transmitted bytes come out in order: the host drains what waited before and then what the guest
-- wrote, each value cut to a byte, and a second drain finds nothing.
pub take_tx-send :
    (u : Uart) (bytes : List ℕ)
    → ((take_tx (send u bytes)).0 ≡ u.tx ++ map u8 bytes)
      × ((take_tx (take_tx (send u bytes)).1).0 ≡ [])
unfolding take_tx
take_tx-send u bytes = (tx-send bytes u, refl)
