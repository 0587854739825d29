-- ===== src/Examples/Lifetimes.antt =====
-- A TxnProcessor from its constructor to its destructor.
use cmsc_624_spring.Common.{ℕ, ◌≡◌, ◌≢◌, refl, true, false, [], ◌∷◌}
use cmsc_624_spring.Atomic.Queue
use cmsc_624_spring.Txn.{Txn}
use cmsc_624_spring.Txn.Types.{new_rmw}
use cmsc_624_spring.Processor.{CcMode, serial, locking, new_processor, new_txn_request}
use cmsc_624_spring.Processor.Serial.{serve, serial_round}
use cmsc_624_spring.Processor.Locking.{System, start_request, hand_out, begin}
use cmsc_624_spring.Processor.Lifetime.{
  is_locking, running, returned, Lifetime, construct, create_thread, clear_stopped, test_stopped,
  Event, testing, creates, clears, tests, serves, Lives, still, then_on,
}
use cmsc_624_spring.Processor.Lifetime.Phases.{AreAlive}
use cmsc_624_spring.Processor.Lifetime.Alive.{scheduler_uses, uses, uses-AreAlive}
use cmsc_624_spring.Processor.Lifetime.Early.{ends_early}
use cmsc_624_spring.Examples.Fifo.{fifo}

abbrev rmws : ℕ → Txn
rmws i = new_rmw [] (7 ∷ []) 0

abbrev clock : ℕ → ℕ
clock i = i

abbrev junk : ℕ → ℕ
junk i = 99

abbrev in_loop : CcMode → Lifetime
in_loop mode = test_stopped mode (clear_stopped (create_thread (construct clock false mode rmws)))

loops :
    (mode : CcMode) → Lives mode fifo clock junk (construct clock false mode rmws) (in_loop mode)
unfolding construct create_thread clear_stopped
loops mode = then_on (then_on (then_on still (creates refl)) (clears refl)) (tests refl)

-- A round with no request.
idles :
    Event serial fifo clock junk (in_loop serial) (record (in_loop serial) { scheduler = testing })
unfolding construct create_thread clear_stopped test_stopped serial_round serve new_processor
    Queue.pop
idles = serves (in_loop serial).system.processor refl refl refl

uses-AreAlive_example :
    (scheduler_uses idles ≡ true → AreAlive serial (in_loop serial))
    × (is_locking serial ≡ false → uses idles ≡ true → AreAlive serial (in_loop serial))
uses-AreAlive_example = uses-AreAlive false rmws (loops serial) idles

-- A request that an executor has begun, in a locking mode.
abbrev s₀ : System
s₀ = record (in_loop locking).system {
  processor = new_txn_request 1 (in_loop locking).system.processor;
}

abbrev s₁ : System
s₁ = record s₀ { processor = start_request fifo 1 (record { items = [] }) s₀.processor }

abbrev s₂ : System
s₂ = hand_out 1 [] s₁

abbrev executing : Lifetime
executing = record (in_loop locking) { system = begin 1 [] s₂ }

ends_early_example :
    ((l : Lifetime)
      → Lives serial fifo clock junk (construct clock false serial rmws) l
      → l.owner ≡ running
      → l.scheduler ≢ returned)
    × ((l : Lifetime) × Lives serial fifo clock junk (construct clock true serial rmws) l
        × (l.owner ≡ running)
        × (l.scheduler ≡ returned)
        × ((l' : Lifetime)
            → Lives serial fifo clock junk l l'
            → l'.system.processor.txn_results.items ≡ []))
ends_early_example = ends_early fifo clock junk serial rmws refl
