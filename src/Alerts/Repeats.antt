-- ===== src/Alerts/Repeats.antt =====
-- The cooldown of a rule, for one camera and one type of event.
use nightfury.Prelude.{
  ℕ, ◌+◌, List, [], ◌∷◌, Bool, false, not, ◌&&◌, ltb, ◌==◌, if◌then◌else◌, keep, any, ◌≡◌, arith,
}
use nightfury.Alerts.{Event, AlertRule, Cooldown, is_key, is_in_cooldown, set_cooldown}

-- Whether two pairs of a rule and an event have one cooldown.
abbrev pub same_key : AlertRule → Event → AlertRule → Event → Bool
same_key r e rule event =
    rule.id == r.id && event.camera_id == e.camera_id && event.event_type == e.event_type

any-keep :
    (at : ℕ) (r rule : AlertRule) (e event : Event) (cooldowns : List Cooldown)
    → any (λ c. is_key r e c && ltb at c.expires) (keep (λ c. not (is_key rule event c)) cooldowns)
      ≡ (if same_key r e rule event
          then false
          else any (λ c. is_key r e c && ltb at c.expires) cooldowns)
any-keep at r rule e event [] = ground arith
any-keep at r rule e event (c ∷ cooldowns) = ground (arith, any-keep at r rule e event cooldowns)

-- After a rule was triggered by an event, it is in cooldown for that camera and type of event until
-- its seconds have passed, and the cooldown of nothing else has changed.
pub is_in_cooldown-set_cooldown :
    (now at : ℕ) (r rule : AlertRule) (e event : Event) (cooldowns : List Cooldown)
    → is_in_cooldown at r e (set_cooldown now rule event cooldowns) ≡ (
        if same_key r e rule event
        then ltb at (now + rule.cooldown_seconds)
        else is_in_cooldown at r e cooldowns)
unfolding is_in_cooldown set_cooldown
is_in_cooldown-set_cooldown now at r rule e event cooldowns =
    ground (arith, any-keep at r rule e event cooldowns)
