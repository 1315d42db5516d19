-- ===== src/Calibration.antt =====
-- `planCalibration` (src/setup/calibrateTuning.ts): from what a running server leaves free to the
-- settings of the next one. A quantity that the source has in fractions of a MiB is a whole number of
-- bytes times `scale_of layers`. Of `tuneForHardware` the answers are arguments; notes are left out.
pub mod Fits
use llamacli.Prelude.{
  ℕ, zero, suc, ◌+◌, ◌-◌, ◌*◌, ◌/◌, max, min, List, [], ◌∷◌, ◌++◌, Option, none, some, Bool, true,
  false, ◌&&◌, ◌||◌, not, ltb, leb, ◌==◌, if◌then◌else◌, Text, lit, text_eq, or_else, is_some,
  is_empty,
}
use llamacli.Prelude.Int.{ℤ, pos, negsuc, pos_part, neg_part, sub_ℕ, ◌+ℤ◌}
use llamacli.Compaction.Tail.{Fraction}

abbrev pub mib : ℕ
mib = 1024 * 1024

abbrev pub min_useful_layers : ℕ
min_useful_layers = 4

abbrev pub safety_margin_mib : ℕ
safety_margin_mib = 600

abbrev pub measured_max_context : ℕ
measured_max_context = 98304

abbrev pub min_context : ℕ
min_context = 4096

abbrev pub compute_growth_mib : ℕ
compute_growth_mib = 384

pub record CalibrationReading : Type 0 where
  pub free_mib : Option ℕ
  pub total_mib : Option ℕ
  -- 0 where a number could not be read
  pub model_bytes : ℕ
  pub layers : ℕ
  pub kv_elements_per_token : ℕ
  pub trained_context : ℕ
  pub moe : Option Bool
  pub unified_memory : Bool
  pub cpu_count : ℕ

pub record ParsedServerArgs : Type 0 where
  pub gpu_layers : Option ℕ
  pub cpu_moe_layers : Option ℕ
  pub context_size : Option ℕ
  pub threads : Option ℕ
  pub threads_batch : Option ℕ
  pub flash_attn : Option Bool
  pub cache_type : Option Text

-- What `tuneForHardware` answers of what the plan uses.
pub record Tuned : Type 0 where
  pub context_size : ℕ
  pub cache_type : Text

pub record ThreadPlan : Type 0 where
  pub threads : ℕ
  pub threads_batch : ℕ

unfoldable pub thread_plan : ℕ → Bool → ThreadPlan
thread_plan cpu_count has_gpu =
    let cores = max 1 cpu_count in
    if has_gpu
    then record {
      threads = min cores (max 2 (cores / 2));
      threads_batch = min cores (max 2 (cores - 1));
    }
    else record {
      threads = min cores (max 1 (cores - 1));
      threads_batch = min cores (max 1 (cores - 1));
    }

unfoldable pub kv_bytes_per_element : Text → Fraction
kv_bytes_per_element t =
    if text_eq t (lit "f32")
    then record { num = 4; den = 1 }
    else if text_eq t (lit "f16") || text_eq t (lit "bf16")
    then record { num = 2; den = 1 }
    else if text_eq t (lit "q8_0")
    then record { num = 34; den = 32 }
    else if text_eq t (lit "q5_1")
    then record { num = 24; den = 32 }
    else if text_eq t (lit "q5_0")
    then record { num = 22; den = 32 }
    else if text_eq t (lit "q4_1")
    then record { num = 20; den = 32 }
    else if text_eq t (lit "q4_0")
    then record { num = 18; den = 32 }
    else record { num = 2; den = 1 }

unfoldable pub scale_of : ℕ → ℕ
scale_of layers = 10 * max 1 layers

-- `freeMiB - SAFETY_MARGIN_MIB`
unfoldable pub slack_mib : ℕ → ℤ
slack_mib free = sub_ℕ free safety_margin_mib

-- `Math.floor(x * n / d)`, also below zero.
unfoldable pub floor_scaled : ℤ → ℕ → ℕ → ℤ
floor_scaled (pos a) n d = pos (a * n / d)
floor_scaled (negsuc a) n d = sub_ℕ 0 ((suc a * n + (d - 1)) / d)

-- A layer is 0.9 of the file over the number of layers.
unfoldable pub room_for_blocks : ℤ → ℕ → ℕ → ℤ
room_for_blocks slack bytes layers =
    if layers == 0 then pos 0 else floor_scaled slack (10 * layers * mib) (9 * bytes)

unfoldable pub layers_held : ℕ → ℕ → ℕ
layers_held layers have = if leb 999 have then layers else min have layers

unfoldable pub target_layers : ℕ → ℕ → ℤ → ℕ
target_layers layers have room = min layers (pos_part (pos have +ℤ room))

unfoldable pub want_layers : ℕ → ℕ → ℕ
want_layers layers target = if leb layers target then 999 else target

-- What the added layers take, scaled.
unfoldable pub layer_cost : ℕ → ℕ → ℕ → ℕ
layer_cost bytes held target = (target - held) * (9 * bytes)

pub record LayerPlan : Type 0 where
  pub gpu_layers : Option ℕ
  pub cost : ℕ
  pub is_measured : Bool

-- A server with a handful of layers is left alone.
unfoldable pub negligible : ℕ → ℕ → ℕ → Bool
negligible layers have want =
    let held = if leb 999 have then layers else have in
    let wanted = if leb 999 want then layers else want in
    ltb 0 held && (ltb held min_useful_layers && ltb wanted min_useful_layers)

unfoldable pub plan_layers : Option ℕ → ℕ → ℕ → ℤ → LayerPlan
plan_layers none bytes layers room = record { gpu_layers = none; cost = 0; is_measured = false }
plan_layers (some have) bytes layers room =
    let held = layers_held layers have in
    let target = target_layers layers held room in
    let want = want_layers layers target in
    if layers == 0 then record { gpu_layers = none; cost = 0; is_measured = false } else record {
      gpu_layers = if (want == have) || negligible layers have want then none else some want;
      cost = layer_cost bytes held target;
      is_measured = true;
    }

-- `--n-cpu-moe`: the spare room says how many expert layers come back.
unfoldable pub moe_target : ℕ → ℕ → ℤ → ℕ
moe_target layers have room =
    let rest = pos_part (sub_ℕ (have + neg_part room) (pos_part room)) in
    min (if layers == 0 then have else layers) rest

unfoldable pub plan_moe : Option Bool → Option ℕ → ℕ → ℤ → Option ℕ
plan_moe none have layers room = none
plan_moe (some true) none layers room = none
plan_moe (some true) (some have) layers room =
    let target = moe_target layers have room in if have == target then none else some target
plan_moe (some false) none layers room = none
plan_moe (some false) (some have) layers room = if have == 0 then none else some 0

unfoldable pub context_ceiling : ℕ → ℕ
context_ceiling trained =
    if trained == 0 then measured_max_context else min measured_max_context (trained / 4096 * 4096)

unfoldable pub align : ℕ → ℕ → ℕ
align ceiling tokens = max min_context (min ceiling (tokens / 4096 * 4096))

-- The tokens that fit a scaled number of bytes, at the given cost of one token.
unfoldable pub tokens_of : ℕ → ℕ → Fraction → ℕ → ℕ
tokens_of scale elements kv bytes = bytes * kv.den / (scale * (elements * kv.num))

-- `plus` and `minus` are the two sides of the scaled slack that the layers leave.
unfoldable pub context_target : ℕ → ℕ → ℕ → Fraction → ℕ → ℕ → ℕ → ℕ
context_target before scale elements kv ceiling plus minus =
    if ltb plus minus
    then min before (align ceiling (before - tokens_of scale elements kv (minus - plus)))
    else if leb (minus + compute_growth_mib * mib * scale) plus
    then max before (
        align ceiling
          (before + tokens_of scale elements kv (plus - minus - compute_growth_mib * mib * scale)))
    else before

abbrev pub changed_to : ℕ → ℕ → Option ℕ
changed_to before target = if before == target then none else some target

unfoldable pub plan_context : Option ℕ → CalibrationReading → Fraction → ℕ → ℤ → ℕ → Option ℕ
plan_context none m kv predicted slack cost = none
plan_context (some before) m kv predicted slack cost =
    let scale = scale_of m.layers in
    if m.kv_elements_per_token == 0
    then changed_to before predicted
    else changed_to before (
        context_target before scale m.kv_elements_per_token kv (context_ceiling m.trained_context)
          (pos_part slack * mib * scale) (neg_part slack * mib * scale + cost))

pub data Unmeasured : Type 0 where
  free_vram model_file_size cpu_cores gpu_layers_running layer_count kv_cost compaction : Unmeasured

-- The settings to launch with; a setting that does not change is absent.
pub record CalibrationPlan : Type 0 where
  pub tuning : ParsedServerArgs
  pub unmeasured : List Unmeasured

abbrev pub no_change : ParsedServerArgs
no_change = record {
  gpu_layers = none;
  cpu_moe_layers = none;
  context_size = none;
  threads = none;
  threads_batch = none;
  flash_attn = none;
  cache_type = none;
}

abbrev pub stops : List Unmeasured → CalibrationPlan
stops u = record { tuning = no_change; unmeasured = u }

unfoldable pub plan_threads : Option ℕ → ℕ → Option ℕ
plan_threads none wanted = some wanted
plan_threads (some have) wanted = changed_to have wanted

-- The prompt threads only change where they were given.
unfoldable pub plan_threads_batch : Option ℕ → ℕ → Option ℕ
plan_threads_batch none wanted = none
plan_threads_batch (some have) wanted = changed_to have wanted

unfoldable pub plan_unified : ParsedServerArgs → ℕ → CalibrationPlan
plan_unified before cpu_count =
    let tp = thread_plan cpu_count true in
    if cpu_count == 0 then stops (cpu_cores ∷ []) else record {
      tuning = record no_change {
        threads = plan_threads before.threads tp.threads;
        threads_batch = plan_threads_batch before.threads_batch tp.threads_batch;
      };
      unmeasured = [];
    }

unfoldable pub plan_cache : Option Text → Text → Option Text
plan_cache none tuned = none
plan_cache (some have) tuned =
    if is_empty tuned || is_empty have || text_eq have tuned then none else some tuned

unfoldable pub plan_flash : Option Bool → Option Bool
plan_flash none = none
plan_flash (some true) = none
plan_flash (some false) = some true

abbrev pub note_if : Bool → Unmeasured → List Unmeasured
note_if b u = if b then u ∷ [] else []

abbrev pub gpu_used : Option ℕ → Option ℕ → Bool
gpu_used (some planned) have = ltb 0 planned
gpu_used none have = ltb 0 (or_else have 0)

unfoldable pub plan_discrete : ParsedServerArgs → CalibrationReading → Tuned → ℕ → CalibrationPlan
plan_discrete before m tuned free =
    let slack = slack_mib free in
    let room = room_for_blocks slack m.model_bytes m.layers in
    let kv = kv_bytes_per_element (or_else before.cache_type tuned.cache_type) in
    let offload = plan_layers before.gpu_layers m.model_bytes m.layers room in
    let tp = thread_plan m.cpu_count (gpu_used offload.gpu_layers before.gpu_layers) in
    record {
      tuning = record {
        gpu_layers = offload.gpu_layers;
        cpu_moe_layers = plan_moe m.moe before.cpu_moe_layers m.layers room;
        context_size = plan_context before.context_size m kv tuned.context_size slack offload.cost;
        threads = if m.cpu_count == 0 then none else plan_threads before.threads tp.threads;
        threads_batch =
            if m.cpu_count == 0
            then none
            else plan_threads_batch before.threads_batch tp.threads_batch;
        flash_attn = plan_flash before.flash_attn;
        cache_type = plan_cache before.cache_type tuned.cache_type;
      };
      unmeasured =
          (if is_some before.gpu_layers
            then note_if (not offload.is_measured) layer_count
            else gpu_layers_running ∷ [])
          ++ ((if is_some before.context_size
                then note_if (m.kv_elements_per_token == 0) kv_cost
                else compaction ∷ [])
              ++ note_if (m.cpu_count == 0) cpu_cores);
    }

-- Without a reading of the card or of the model nothing is planned.
unfoldable pub plan_measured :
    ParsedServerArgs → CalibrationReading → Tuned → Option ℕ → Option ℕ → CalibrationPlan
plan_measured before m tuned (some free) (some total) =
    if m.model_bytes == 0
    then stops (model_file_size ∷ [])
    else if m.unified_memory
    then plan_unified before m.cpu_count
    else plan_discrete before m tuned free
plan_measured before m tuned _ _ = stops (free_vram ∷ [])

unfoldable pub plan_calibration : ParsedServerArgs → CalibrationReading → Tuned → CalibrationPlan
plan_calibration before m tuned = plan_measured before m tuned m.free_mib m.total_mib
