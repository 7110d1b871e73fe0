-- ===== src/Config/BurstFlags.antt =====
-- parseBurstShape, parseBurstJitter and parseBurstMode of scheduler.go.
use go_replayer.Prelude.{Text, Option, if◌then◌else◌, text_eq, codes, ◌||◌, is_empty, some, none}
use go_replayer.Scheduler.Burst.{
  BurstShape, BurstJitter, BurstMode, uniform, fixed, additive, spike, poisson, absorbing, random,
}
use go_replayer.Config.Strings.{trim_space, to_lower}

-- The text that the switches look at.
abbrev pub normal_form : Text → Text
normal_form raw = to_lower (trim_space raw)

unfoldable pub parse_burst_shape : Text → Option BurstShape
parse_burst_shape raw =
    let word = normal_form raw in
    if text_eq word (codes "uniform") || is_empty word
    then some uniform
    else if text_eq word (codes "spike")
    then some spike
    else if text_eq word (codes "random")
    then some random
    else none

unfoldable pub parse_burst_jitter : Text → Option BurstJitter
parse_burst_jitter raw =
    let word = normal_form raw in
    if text_eq word (codes "fixed") || is_empty word
    then some fixed
    else if text_eq word (codes "poisson")
    then some poisson
    else none

unfoldable pub parse_burst_mode : Text → Option BurstMode
parse_burst_mode raw =
    let word = normal_form raw in
    if text_eq word (codes "additive") || is_empty word
    then some additive
    else if text_eq word (codes "absorbing")
    then some absorbing
    else none
