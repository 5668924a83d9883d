-- ===== src/Store.antt =====
-- infra/self-service/src/store_dynamodb.py: the control store over DynamoDB.
pub mod Client
pub mod Dynamodb
pub mod Plain
pub mod Refinement
pub mod Records
pub mod Contract
