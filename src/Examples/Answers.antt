-- ===== src/Examples/Answers.antt =====
-- A NAK packet for the metadata and a range of a file of five bytes, of which four are sent.
use cfdp_py.Base.Int.{pos}
use cfdp_py.Proc.{returned}
use cfdp_py.Protocol.{nak, towards_sender, Pdu}
use cfdp_py.Base.{arith, [], ◌∷◌, ◌≡◌, ℕ, some, refl, List}
use cfdp_py.Source.Machine.{state_machine, fsm_advancement_after_packets_were_sent}
use cfdp_py.Source.Answers.{Answers, HasMetadata, metadata_again}
use cfdp_py.Source.Answers.Calls.{in_data, serving, after_answer, state_machine-Answers}
use cfdp_py.Examples.{a_conf, a_path, a_remote}
use cfdp_py.Examples.Source.{
  sender, a_request, five_bytes, of_file, sending_from, sending-ReadsFile,
}

abbrev asked : List (ℕ × ℕ)
asked = (0, 0) ∷ (1, 4) ∷ []

abbrev nak_pdu : Pdu
nak_pdu = record { pdu_conf = record a_conf { direction = towards_sender }; body = nak 0 5 asked }

abbrev has_metadata : HasMetadata (sending_from 4)
has_metadata = record {
  request = a_request;
  cfg = a_remote 2;
  source = a_path;
  dest = a_path;
  size = 5;
  at_hand = refl;
  of_file = refl;
  into_file = refl;
  to_entity = refl;
  size_known = refl;
}

state_machine-Answers_example :
    (pdus : List Pdu) × (state_machine sender (some nak_pdu) (sending_from 4)
      ≡ (returned tt, serving sender pdus (sending_from 4)))
    × Answers (of_file five_bytes) 2 (metadata_again (sending_from 4) has_metadata) asked pdus
    × (fsm_advancement_after_packets_were_sent sender
          (record (serving sender pdus (sending_from 4)) {
            pdus_to_be_sent = [];
            states = record (serving sender pdus (sending_from 4)).states {
              num_packets_ready = pos 0;
            };
          })
        ≡ (returned tt, after_answer (sending_from 4)))
state_machine-Answers_example =
    state_machine-Answers sender (of_file five_bytes) 1 nak_pdu 0 5 asked (sending_from 4)
      has_metadata (sending-ReadsFile 4) refl refl refl refl (in_data 5 refl refl (omega arith))
      (record { direction = refl; source = refl; dest = refl; transaction = refl }) refl
      ((omega arith, omega arith), ((omega arith, omega arith), tt))
