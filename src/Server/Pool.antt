-- ===== src/Server/Pool.antt =====
-- What a worker does with a job (internal/worker/pool.go).
pub mod Backoff
pub mod Exhaustion
use job_flow_web_application.Prelude.{
  ℕ, zero, suc, ◌+◌, ◌-◌, ◌*◌, ◌%◌, ◌<◌, List, [], ◌∷◌, ◌++◌, Bool, true, false, Option, none, some,
  ltb, if◌then◌else◌,
}
use job_flow_web_application.Prelude.Int.{ℤ, pos, negsuc}
use job_flow_web_application.Prelude.Text.{Text, txt}
use job_flow_web_application.Server.{Row, is_retrying, Answer, ok, err, Database}
use job_flow_web_application.Server.Repository.{mark_running, mark_completed, mark_failed}
use job_flow_web_application.Server.Queue.{SortedSets, Redis, times, enqueue_after, push_dead}
use job_flow_web_application.Server.Service.{Store, publish}

-- 2 ^ n
unfoldable pub pow_two : ℕ → ℕ
pow_two zero = 1
pow_two (suc n) = 2 * pow_two n

-- The 64-bit integer that is equal to an integer modulo 2^64.
unfoldable pub to_word : ℕ → ℤ
to_word m =
    let r = m % 18446744073709551616 in
    if ltb r 9223372036854775808 then pos r else negsuc (18446744073709551616 - r - 1)

abbrev pub residue : ℤ → ℕ
residue (pos n) = n % 18446744073709551616
residue (negsuc n) = 18446744073709551616 - 1 - n % 18446744073709551616

-- `time.Duration(math.Pow(2, float64(attempts-1))) * time.Second`, in nanoseconds. The conversion of a
-- floating-point number that no 64-bit integer holds is left to the platform: `convert` is that of 2 ^ n.
unfoldable pub delay_of : (ℕ → ℤ) → ℕ → ℤ
unfolding to_word
delay_of convert attempts = to_word (residue (times (convert (attempts - 1)) 1000000000))

module _ {Z : Type 0} (sets : SortedSets Z) (round : ℤ → ℤ) (convert : ℕ → ℤ) where
  -- `handle` up to the processor: the job to process, if it could be claimed.
  unfoldable pub handle_start : Database → Text → ℕ → Store Z → Store Z × Option Row
  unfolding mark_running
  handle_start db id now s =
      let (rows, answer) = mark_running db id now s.rows in
      let updated : Store Z = record s { rows = rows } in
      elim answer [
        | err _ ↦ (updated, none)
        | ok job ↦ (publish (txt "job.running") job.id updated, some job)
      ]

  -- The rest of `handle`, given the error of the processor, if any.
  unfoldable pub handle_end : Database → Option Text → Text → ℕ → Option Text → Store Z → Store Z
  unfolding mark_completed mark_failed delay_of enqueue_after push_dead
  handle_end db redis_error id now none s =
      publish (txt "job.completed") id (record s { rows = mark_completed db id now s.rows })
  handle_end db redis_error id now (some message) s =
      let (rows, answer) = mark_failed db id message now s.rows in
      elim answer [
        | err _ ↦ record s { rows = rows }
        | ok job ↦
            if is_retrying job.status
            then publish (txt "job.retrying") id (record s {
              rows = rows;
              redis =
                  (enqueue_after sets round redis_error now (delay_of convert job.attempts) job
                    s.redis).0;
            })
            else publish (txt "job.dead_letter") id
                (record s { rows = rows; redis = push_dead sets round redis_error job s.redis })
      ]
