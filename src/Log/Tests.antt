-- ===== src/Log/Tests.antt =====
-- The ring leader finishes after the second line, which is the first with a writer.
use secure_mavlink_gateway.Prelude.{refl, true, false, none, some, [], ◌∷◌}
use secure_mavlink_gateway.Outcome.{done, Ensures, ◌>>=◌}
use secure_mavlink_gateway.Log.{no_statics, Leader, Call, log_all}
use secure_mavlink_gateway.Log.Writer.{AllThrough, log_all_lem}

abbrev unfinished : Leader
unfinished = record { factory = some 7; finished = false }

abbrev finished : Leader
finished = record { factory = some 7; finished = true }

abbrev without_writer : Call
without_writer = record {
  leader = unfinished;
  makes = false;
  line = 104 ∷ 105 ∷ [];
  printed = true;
}

abbrev early : Call
early = record { leader = unfinished; makes = true; line = 104 ∷ 105 ∷ []; printed = true }

abbrev late : Call
late = record { leader = finished; makes = true; line = 111 ∷ []; printed = true }

log_all_example :
    Ensures
      (log_all (without_writer ∷ []) no_statics >>= λ (ws, s).
        log_all (early ∷ late ∷ []) s >>= λ (ws', s'). done (ws, ws'))
      (λ (ws, ws').
        AllThrough none (without_writer ∷ []) ws × AllThrough (some none) (early ∷ late ∷ []) ws')
log_all_example =
    log_all_lem 7 (without_writer ∷ []) early (late ∷ []) (refl, tt) (refl, (refl, tt)) (refl, tt)
      refl (refl, tt) refl
