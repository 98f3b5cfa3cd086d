-- ===== src/Logger/Tests.antt =====
-- The logger at concrete inputs: the theorems where their hypotheses hold.
use financial_exchange.Common.{
  ℕ, ◌≤◌, ◌≡◌, refl, Bool, true, false, List, [], arith, length, replicate, length-replicate,
  joined,
}
use financial_exchange.Protocol.MessageType.{price_level_update, payload_size_for_type}
use financial_exchange.Logger.Log.{destroy}
use financial_exchange.Logger.Logging.{LogRun, LogReach, logged, log_step, opened, next}
use financial_exchange.Logger.Closing.{fresh_logger, new_logger-fresh, destroy-written}

abbrev all_made : ℕ → Bool
all_made k = true

abbrev update_bytes : List ℕ
update_bytes = replicate 64 7

abbrev one_logged : LogRun
one_logged =
    logged price_level_update update_bytes (record { logger = fresh_logger; given = λ _. [] })

long_enough : payload_size_for_type price_level_update ≤ length update_bytes
unfolding payload_size_for_type
long_enough = omega (arith, length-replicate {A = ℕ} 64 7)

one_logged-LogReach : LogReach fresh_logger one_logged
one_logged-LogReach = next opened (log_step price_level_update update_bytes long_enough)

destroy-written_example :
    (joined ((destroy 128 one_logged.logger).channel 0).sink.writes ≡ one_logged.given 0)
    × (((destroy 128 one_logged.logger).channel 0).sink.opened ≡ false)
destroy-written_example =
    destroy-written all_made fresh_logger (λ k h. refl) (new_logger-fresh all_made (λ k h. refl))
      one_logged-LogReach 128 (omega arith) 0 (omega arith)
