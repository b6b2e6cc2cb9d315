-- ===== src/Publishers.antt =====
-- The publishers of RabbitMQ messages (src/products/rabbit/*.publisher.ts but that of statuses, which is in
-- Subscribers.antt). A sender is bound to its message class; here it is the constructor of the message.
use core_status.Data.Json.{Json}
use core_status.Data.Entities.{UploadEntity, Product}
use core_status.Data.Messages.{send_upload, send_product, publish_channel, publish_keystore}
use core_status.Effects.{Env, M, call}

abbrev pub publish_channel_update : Env → Json → M (Unit {0})
publish_channel_update env payload = call env (publish_channel payload)

abbrev pub publish_keystore_update : Env → Json → M (Unit {0})
publish_keystore_update env payload = call env (publish_keystore payload)

abbrev pub publish_product_update : Env → Product → M (Unit {0})
publish_product_update env payload = call env (send_product payload)

abbrev pub publish_upload_update : Env → UploadEntity → M (Unit {0})
publish_upload_update env payload = call env (send_upload payload)
