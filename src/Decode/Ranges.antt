-- ===== src/Decode/Ranges.antt =====
-- What the decoder of every range yields, the decoder of frames yields.
use velux2mqtt.Decode.{
  decode, Response, decode_configuration, decode_node_group, decode_command_extension,
  decode_scene_contact, decode_activation_log, decode_core, Frame, in_range,
}
use velux2mqtt.Prelude.{Bytes, if_both, ◌||◌, ℕ, ◌≡◌}
use velux2mqtt.Decode.Arms.{Yields}

pub decode-Yields {κ} :
    (P : Response → Type κ) (command : ℕ) (payload : Bytes)
    → Yields P (decode_configuration command payload)
    → Yields P (decode_node_group command payload)
    → Yields P (decode_command_extension command payload)
    → Yields P (decode_scene_contact command payload)
    → Yields P (decode_activation_log command payload)
    → Yields P (decode_core command payload)
    → (frame : Frame) → frame.command ≡ command
    → frame.payload ≡ payload
    → Yields P (decode frame)
unfolding decode
decode-Yields P command payload a b c d e f frame hc hp =
    rw (hc, hp)
      (if_both (Yields P) (in_range 0x0100 0x011A command) a (
        if_both (Yields P)
          (in_range 0x0206 0x0209 command
            || in_range 0x020D 0x020E command
            || in_range 0x0220 0x0230 command)
          b
          (if_both (Yields P) (in_range 0x0308 0x0322 command) c (
            if_both (Yields P) (in_range 0x0400 0x0465 command) d
              (if_both (Yields P) (in_range 0x0500 0x0509 command) e f)))))
