-- ===== src/Http/Problems.antt =====
-- The replies to the errors of the orchestrator: `writePositionError`, `writeSceneError` and
-- `writeLiveError` of backend/internal/httpapi.
use po_c_go_live.Orchestrator.Models.{
  Err, camera_not_found, camera_offline, obs_unreachable, position_not_found, position_name_empty,
  position_name_too_long, position_name_taken, position_obs_input_missing, position_empty,
  scene_not_found, scene_name_required, scene_name_taken, scene_is_live, reserved_position,
  preview_empty, source_unavailable,
}
use po_c_go_live.Http.Reply.{Reply, write_error}

module _ {P : Type 0} where
  unfoldable pub write_position_error : Err → Reply P
  write_position_error position_not_found = write_error 404 "posição não encontrada"
  write_position_error camera_not_found = write_error 404 "câmera não encontrada"
  write_position_error camera_offline = write_error 409 "câmera está offline"
  write_position_error position_name_taken = write_error 409 "nome de posição já utilizado"
  write_position_error position_name_empty = write_error 422 "nome de posição não pode ser vazio"
  write_position_error position_name_too_long =
      write_error 422 "nome de posição excede o tamanho máximo permitido"
  write_position_error position_empty = write_error 422 "posição não possui câmera atribuída"
  write_position_error obs_unreachable = write_error 502 "OBS está inacessível no momento"
  write_position_error position_obs_input_missing =
      write_error 502 "input do OBS da posição não encontrado"
  write_position_error reserved_position = write_error 422 "posição reservada"
  write_position_error _ = write_error 500 "erro interno"

  unfoldable pub write_scene_error : Err → Reply P
  write_scene_error scene_not_found = write_error 404 "cena não encontrada"
  write_scene_error position_not_found = write_error 404 "posição não encontrada"
  write_scene_error scene_name_required = write_error 422 "nome de cena é obrigatório"
  write_scene_error scene_name_taken = write_error 422 "nome de cena já utilizado"
  write_scene_error reserved_position = write_error 422 "posição reservada"
  write_scene_error scene_is_live = write_error 409 "cena está ao vivo"
  write_scene_error _ = write_error 500 "erro interno"

  unfoldable pub write_live_error : Err → Reply P
  write_live_error camera_not_found = write_error 404 "câmera não encontrada"
  write_live_error scene_not_found = write_error 404 "cena não encontrada"
  write_live_error preview_empty = write_error 409 "nada em prévia"
  write_live_error source_unavailable = write_error 409 "fonte indisponível"
  write_live_error camera_offline = write_error 409 "câmera está offline"
  write_live_error obs_unreachable = write_error 502 "OBS está inacessível no momento"
  write_live_error position_obs_input_missing =
      write_error 502 "input do OBS da posição não encontrado"
  write_live_error _ = write_error 500 "erro interno"
