-- ===== src/Store/Contract.antt =====
-- store_dynamodb.py as a whole: every method of `DynamoDbControlStore` against the contract.
use aws_devops_sdet_demo.Store.Client.{Client}
