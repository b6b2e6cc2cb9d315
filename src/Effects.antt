-- ===== src/Effects.antt =====
-- The world that the services act on, and the outside services they call. TypeORM, Redis, PubNub, RabbitMQ,
-- S3, lodash and the cryptography library are not part of the repository: their calls are the fields of `Env`,
-- a parameter of every service, and what is relied on is stated in Effects/Laws.antt.
mod Tables
mod Worlds
mod Monad
pub mod Laws
pub use Tables.*
pub use Worlds.*
pub use Monad.*
